-- ===== src/StoredIds/Lending.antt =====
-- The loop of `lend_stored_ids` (django_ag_ui/agent/lend_stored_ids.py): what each turn may lend,
-- and that no id is stored twice.
use native.Mathlib.Nat.{add-zero, zero-add}
use django_ag_ui.Base.{
  ℕ, zero, suc, ◌+◌, String, List, Option, true, false, none, some, [], ◌∷◌, ◌++◌, ◌==◌, ◌≡◌, refl,
  sym, subst, ◌∙◌, inl, inr, arith, eq_iff, length, take, drop, ltb, nat_eq, nat_eq_iff, contains,
  In, All, Bool-cases, and_left, and_right,
}
use django_ag_ui.Base.Dict.{Dict, lookup, update, or_nil}
use django_ag_ui.Wire.{Fields, Body, Message, activity, tool, assistant, reasoning}
use django_ag_ui.Relabel.{
  apply_ids, apply_ids-Distinct, message_ids, Distinct, Lent-weaken, Fresh, Lent, grants,
  relabel-apply_ids, grants-Fresh, grants-Lent,
}
use django_ag_ui.StoredIds.{
  Key, same_key, Row, kind_and_key, rows_of, scan, matched, next_match, count_of, dump_at,
  dumped_at, held_of, all_equal, Places, put_at, lookup_at, put_pairs, pair_types,
  paired_activities, Cursor, keyed_match, choose_id, choose, from_start, lend_stored_ids,
}
use django_ag_ui.StoredIds.Held.{
  StoredAs, In-take, In-drop, AllQueued, KeyHeld, ActivityHeld, rows-AllQueued, held-AllQueued,
  scan_sound,
}

abbrev body_at : List Message → ℕ → Option Body
body_at [] i = none
body_at (m ∷ ms) zero = some m.body
body_at (m ∷ ms) (suc i) = body_at ms i

-- Every entry of every queue satisfies `P`.
abbrev AllEntries : {A : Type 0} → (String → A → Type 0) → Dict (List A) → Type 0
AllEntries P [] = Unit
AllEntries P ((k, l) ∷ d) = All (P k) l × AllEntries P d

All-push :
    {A : Type 0} (P : A → Type 0) (a : A) (xs : List A) → P a → All P xs → All P (xs ++ a ∷ [])
All-push P a [] p h = (p, tt)
All-push P a (x ∷ xs) p h = (h.0, All-push P a xs p h.1)

push_AllEntries :
    {A : Type 0} (P : String → A → Type 0) (k : String) (a : A) (d : Dict (List A))
    → P k a
    → AllEntries P d
    → AllEntries P (update k [] (λ q. q ++ a ∷ []) d)
unfolding update
push_AllEntries P k a [] p h = ((p, tt), tt)
push_AllEntries P k a ((j, l) ∷ d) p h = elim (Bool-cases (j == k)) [
  | inl e ↦ rw e (All-push (P j) a l (subst (λ i. P i a) (sym ((eq_iff j k).0 e)) p) h.0, h.1)
  | inr e ↦ rw e (h.0, push_AllEntries P k a d p h.1)
]

module _ (whole stored : List Message) where
  -- The dumped messages from a position on.
  abbrev From : ℕ → List Message → Type 0
  From p ms = (i : ℕ) → body_at whole (p + i) ≡ body_at ms i

  From-next : (p : ℕ) (m : Message) (ms : List Message) → From p (m ∷ ms) → From (p + 1) ms
  From-next p m ms h i = let e : p + 1 + i ≡ p + suc i = omega arith in rw e (h (suc i))

  From-here :
      (p : ℕ) (m : Message) (ms : List Message) → From p (m ∷ ms) → body_at whole p ≡ some m.body
  From-here p m ms h = rw add-zero at (h zero)

  abbrev DumpedAt : String → ℕ × Fields → Type 0
  DumpedAt type (p, content) = body_at whole p ≡ some (activity type content)

  dump_at_Entries :
      (p : ℕ) (b : Body) (dumped : Dict (List (ℕ × Fields)))
      → body_at whole p ≡ some b
      → AllEntries DumpedAt dumped
      → AllEntries DumpedAt (dump_at p b dumped)
  dump_at_Entries p (activity type content) dumped e h =
      push_AllEntries DumpedAt type (p, content) dumped e h
  dump_at_Entries p _ dumped e h = h

  dumped_at_Entries :
      (p : ℕ) (dumped : Dict (List (ℕ × Fields))) (ms : List Message)
      → From p ms
      → AllEntries DumpedAt dumped
      → AllEntries DumpedAt (dumped_at p dumped ms)
  unfolding dumped_at
  dumped_at_Entries p dumped [] f h = h
  dumped_at_Entries p dumped (m ∷ ms) f h =
      dumped_at_Entries (p + 1) (dump_at p m.body dumped) ms (From-next p m ms f)
        (dump_at_Entries p m.body dumped (From-here p m ms f) h)

  -- The id paired with a position is that of a stored activity equal to the one dumped there.
  abbrev PlaceOk : ℕ × String → Type 0
  PlaceOk (p, x) =
      (type : String) × (content : Fields) × (body_at whole p ≡ some (activity type content))
      × StoredAs stored (activity type content) x

  put_at-All :
      (p : ℕ) (x : String) (ps : Places)
      → PlaceOk (p, x)
      → All PlaceOk ps
      → All PlaceOk (put_at p x ps)
  put_at-All p x [] o h = (o, tt)
  put_at-All p x ((q, y) ∷ ps) o h = elim (Bool-cases (nat_eq q p)) [
    | inl e ↦ rw e (o, h.1)
    | inr e ↦ rw e (h.0, put_at-All p x ps o h.1)
  ]

  put_pairs-All :
      (type : String) (wanted : List (ℕ × Fields)) (row : List (String × Fields)) (ps : Places)
      → All (DumpedAt type) wanted
      → ((a : String × Fields) → In a row → ActivityHeld stored type a)
      → all_equal wanted row ≡ true
      → All PlaceOk ps
      → All PlaceOk (put_pairs wanted row ps)
  unfolding put_pairs all_equal
  put_pairs-All type [] row ps d held e h = h
  put_pairs-All type ((p, content) ∷ wanted) [] ps d held e h = h
  put_pairs-All type ((p, content) ∷ wanted) ((x, found) ∷ row) ps d held e h =
      let (s, i, same, b) = held (x, found) (inl refl) in
      put_pairs-All type wanted row (put_at p x ps) d.1 (λ a m. held a (inr m)) (and_right _ _ e)
        (put_at-All p x ps (type, content, d.0, (s, i, same, (found, b, and_left _ _ e))) h)

  pair_types-All :
      (held : Dict (List (String × Fields))) (dumped : Dict (List (ℕ × Fields))) (ps : Places)
      → AllQueued (ActivityHeld stored) held
      → AllEntries DumpedAt dumped
      → All PlaceOk ps
      → All PlaceOk (pair_types held dumped ps)
  unfolding pair_types
  pair_types-All held [] ps a d h = h
  pair_types-All held ((type, wanted) ∷ dumped) ps a d h =
      let row : List (String × Fields) = take (length wanted) (or_nil (lookup type held)) in
      elim (Bool-cases (ltb (length row) (length wanted))) [
        | inl e ↦ rw e (pair_types-All held dumped ps a d.1 h)
        | inr e ↦ elim (Bool-cases (all_equal wanted row)) [
          | inr f ↦ rw (e, f) (pair_types-All held dumped ps a d.1 h)
          | inl f ↦
              rw (e, f)
                (pair_types-All held dumped (put_pairs wanted row ps) a d.1 (
                  put_pairs-All type wanted row ps d.0
                    (λ b m. a type b (In-take (length wanted) b _ m)) f h))
        ]
      ]

  lookup_at_Ok :
      (p : ℕ) (x : String) (ps : Places) → All PlaceOk ps → lookup_at p ps ≡ some x → PlaceOk (p, x)
  lookup_at_Ok p x [] h e = cc
  lookup_at_Ok p x ((q, y) ∷ ps) h e = elim (Bool-cases (nat_eq q p)) [
    | inl f ↦
        let here : some y ≡ some x = rw f at e in
        let same : y ≡ x = cc here in
        subst (λ z. PlaceOk (p, z)) same (subst (λ r. PlaceOk (r, y)) ((nat_eq_iff q p).0 f) h.0)
    | inr f ↦ lookup_at_Ok p x ps h.1 (rw f at e)
  ]

module _ (stored : List Message) where
  KeyMatch : Body → String → Type 0
  KeyMatch b x =
      (s : Message) × In s stored
      × (s.id ≡ x)
      × ((kind : String) × (key : Key) × (key' : Key) × (kind_and_key s.body ≡ some (kind, key))
          × (kind_and_key b ≡ some (kind, key'))
          × (same_key key key' ≡ true))

  matched_sound :
      (b : Body) (rows : Dict Row) (cursors : Dict ℕ) (kind : String) (key : Key) (x : String)
      (n : ℕ) (o : Option (ℕ × String))
      → AllQueued (KeyHeld stored) rows
      → kind_and_key b ≡ some (kind, key)
      → scan n (drop n (or_nil (lookup kind rows))) key ≡ o
      → (matched cursors kind o).0 ≡ some x
      → KeyMatch b x
  unfolding KeyMatch
  matched_sound b rows cursors kind key x n none a k e c = cc
  matched_sound b rows cursors kind key x n (some (j, y)) a k e c =
      let (found, i, same) = scan_sound n _ key j y e in
      let (s, m, id, h) = a kind (found, y) (In-drop n (found, y) _ i) in
      let y_is_x : y ≡ x = cc c in (s, m, id ∙ y_is_x, (kind, found, key, h, k, same))

  keyed_sound :
      (b : Body) (rows : Dict Row) (cursors : Dict ℕ) (x : String) (o : Option (String × Key))
      → AllQueued (KeyHeld stored) rows
      → kind_and_key b ≡ o
      → (keyed_match rows cursors o).0 ≡ some x
      → KeyMatch b x
  unfolding next_match
  keyed_sound b rows cursors x none a k e = cc
  keyed_sound b rows cursors x (some (kind, key)) a k e =
      matched_sound b rows cursors kind key x (count_of (lookup kind cursors)) _ a k refl e

  body_sound :
      (whole : List Message) (rows : Dict Row) (places : Places) (c : Cursor) (b : Body)
      (x : String)
      → AllQueued (KeyHeld stored) rows
      → All (PlaceOk whole stored) places
      → body_at whole c.position ≡ some b
      → (choose_id rows places c b).0 ≡ some x
      → StoredAs stored b x
  unfolding KeyMatch kind_and_key
  body_sound whole rows places c (activity type content) x a p h e =
      let (t, f, at, s) = lookup_at_Ok whole stored c.position x places p e in
      let same : some (activity t f) ≡ some (activity type content) = sym at ∙ h in
      let body : activity t f ≡ activity type content = cc same in
      subst (λ b'. StoredAs stored b' x) body s
  body_sound whole rows places c (tool id content) x a p h e =
      keyed_sound (tool id content) rows c.cursors x _ a refl e
  body_sound whole rows places c (assistant content cs) x a p h e =
      keyed_sound (assistant content cs) rows c.cursors x _ a refl e
  body_sound whole rows places c (reasoning content) x a p h e =
      keyed_sound (reasoning content) rows c.cursors x _ a refl e
  body_sound whole rows places c _ x a p h e = cc

-- Each message of the result is the dumped message, under its own id or under the id of a stored
-- message that is the same one: of the same kind with the same key, or an activity of the same
-- type and content. No id is lent twice, none is lent that was reserved, and none that a dumped
-- message already carries.
pub lend_stored_ids-StoredAs :
    (ms stored : List Message) (reserved : List String)
    → (gs : List (Option String)) × (lend_stored_ids ms stored reserved ≡ apply_ids gs ms)
      × Lent (λ m x. StoredAs stored m.body x × (contains (message_ids ms) x ≡ false)) ms gs
      × Fresh reserved gs
unfolding lend_stored_ids choose paired_activities lookup
lend_stored_ids-StoredAs ms stored reserved =
    let rows : Dict Row = rows_of [] stored in
    let rows_ok : AllQueued (KeyHeld stored) rows =
      rows-AllQueued stored [] stored (λ s i. i) (λ k a m. absurd m) in
    let places : Places = paired_activities ms stored in
    let places_ok : All (PlaceOk ms stored) places =
      pair_types-All ms stored (held_of [] stored) (dumped_at 0 [] ms) []
        (held-AllQueued stored [] stored (λ s i. i) (λ k a m. absurd m))
        (dumped_at_Entries ms stored 0 [] ms (λ i. rw zero-add) tt) tt in
    let pick = choose rows places in
    (
      grants pick (contains (message_ids ms)) from_start reserved ms,
      relabel-apply_ids pick (contains (message_ids ms)) from_start reserved ms,
      grants-Lent pick (contains (message_ids ms)) (λ c rest. From ms stored c.position rest)
          (λ m x. StoredAs stored m.body x) (λ c m rest f. From-next ms stored c.position m rest f)
          (λ c m rest x f e.
            body_sound stored ms rows places c m.body x rows_ok places_ok
              (From-here ms stored c.position m rest f) e)
          from_start reserved ms (λ i. rw zero-add),
      grants-Fresh pick (contains (message_ids ms)) from_start reserved ms,
    )

-- If no two dumped messages share an id, no two messages of the result do.
pub lend_stored_ids-Distinct :
    (ms stored : List Message) (reserved : List String)
    → Distinct (message_ids ms)
    → Distinct (message_ids (lend_stored_ids ms stored reserved))
lend_stored_ids-Distinct ms stored reserved d =
    let (gs, e, l, f) = lend_stored_ids-StoredAs ms stored reserved in
    rw e (
      apply_ids-Distinct (message_ids ms) reserved ms gs f (Lent-weaken ms gs (λ m x h. h.1) l)
        (λ y h. h) d)
