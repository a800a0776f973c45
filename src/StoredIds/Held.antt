-- ===== src/StoredIds/Held.antt =====
-- Which ids `lend_stored_ids` of django_ag_ui/agent/lend_stored_ids.py lends: only the id of a
-- stored message that is the same message, and never one that would be stored twice.
use django_ag_ui.Base.{
  ℕ, zero, suc, ◌+◌, String, List, Option, true, none, some, [], ◌∷◌, ◌++◌, ◌==◌, ◌≡◌, refl, ap,
  subst, ◌⊎◌, inl, inr, eq_iff, take, drop, In, Bool-cases,
}
use django_ag_ui.Base.Dict.{Dict, lookup, update, or_nil, or_nil-push}
use django_ag_ui.Wire.{Fields, same_fields, Body, Message, activity}
use django_ag_ui.StoredIds.{
  Key, same_key, Row, kind_and_key, keyed_row, rows_of, scan, hold, held_of,
}

-- A stored message and a dumped one are one message by the key of their kind, and activities by
-- type and content.
abbrev SameMessage : Body → Body → Type 0
SameMessage stored (activity type content) =
    (found : Fields) × (stored ≡ activity type found) × (same_fields found content ≡ true)
SameMessage stored b =
    (kind : String) × (key : Key) × (key' : Key) × (kind_and_key stored ≡ some (kind, key))
    × (kind_and_key b ≡ some (kind, key'))
    × (same_key key key' ≡ true)

-- The id is that of a stored message which is the same message.
abbrev pub StoredAs : List Message → Body → String → Type 0
StoredAs stored b x = (s : Message) × In s stored × (s.id ≡ x) × SameMessage s.body b

In-push : {A : Type 0} (a b : A) (xs : List A) → In a (xs ++ b ∷ []) → In a xs ⊎ (b ≡ a)
In-push a b [] (inl e) = inr e
In-push a b [] (inr h) = absurd h
In-push a b (x ∷ xs) (inl e) = inl (inl e)
In-push a b (x ∷ xs) (inr h) = elim (In-push a b xs h) [ inl g ↦ inl (inr g) | inr e ↦ inr e ]

pub In-drop : {A : Type 0} (n : ℕ) (a : A) (xs : List A) → In a (drop n xs) → In a xs
In-drop zero a xs h = h
In-drop (suc n) a [] h = h
In-drop (suc n) a (x ∷ xs) h = inr (In-drop n a xs h)

pub In-take : {A : Type 0} (n : ℕ) (a : A) (xs : List A) → In a (take n xs) → In a xs
In-take zero a xs h = absurd h
In-take (suc n) a [] h = h
In-take (suc n) a (x ∷ xs) (inl e) = inl e
In-take (suc n) a (x ∷ xs) (inr h) = inr (In-take n a xs h)

-- A dict of queues all of whose entries satisfy `P` keeps that when one that does is queued.
module _ {A : Type 0} (P : String → A → Type 0) where
  abbrev pub AllQueued : Dict (List A) → Type 0
  AllQueued d = (k : String) (a : A) → In a (or_nil (lookup k d)) → P k a

  push-AllQueued :
      (k : String) (a : A) (d : Dict (List A))
      → P k a
      → AllQueued d
      → AllQueued (update k [] (λ q. q ++ a ∷ []) d)
  push-AllQueued k a d p h j b m = elim (Bool-cases (k == j)) [
    | inr e ↦ h j b (rw (or_nil-push k j a d, e) at m)
    | inl e ↦ elim (In-push b a _ (rw (or_nil-push k j a d, e) at m)) [
      | inl g ↦ h j b g
      | inr same ↦ subst (P j) same (subst (λ i. P i a) ((eq_iff k j).0 e) p)
    ]
  ]

module _ (stored : List Message) where
  abbrev pub KeyHeld : String → Key × String → Type 0
  KeyHeld kind (key, x) =
      (s : Message) × In s stored × (s.id ≡ x) × (kind_and_key s.body ≡ some (kind, key))

  keyed-AllQueued :
      (s : Message) (o : Option (String × Key)) (rows : Dict Row)
      → In s stored
      → kind_and_key s.body ≡ o
      → AllQueued KeyHeld rows
      → AllQueued KeyHeld (keyed_row o s.id rows)
  keyed-AllQueued s none rows i e h = h
  keyed-AllQueued s (some (kind, key)) rows i e h =
      push-AllQueued KeyHeld kind (key, s.id) rows (s, i, refl, e) h

  pub rows-AllQueued :
      (rows : Dict Row) (ms : List Message)
      → ((s : Message) → In s ms → In s stored)
      → AllQueued KeyHeld rows
      → AllQueued KeyHeld (rows_of rows ms)
  unfolding rows_of
  rows-AllQueued rows [] sub h = h
  rows-AllQueued rows (m ∷ ms) sub h =
      rows-AllQueued (keyed_row (kind_and_key m.body) m.id rows) ms (λ s i. sub s (inr i))
        (keyed-AllQueued m (kind_and_key m.body) rows (sub m (inl refl)) refl h)

  abbrev pub ActivityHeld : String → String × Fields → Type 0
  ActivityHeld type (x, found) =
      (s : Message) × In s stored × (s.id ≡ x) × (s.body ≡ activity type found)

  hold-AllQueued :
      (s : Message) (b : Body) (held : Dict (List (String × Fields)))
      → In s stored
      → s.body ≡ b
      → AllQueued ActivityHeld held
      → AllQueued ActivityHeld (hold s.id b held)
  hold-AllQueued s (activity type content) held i e h =
      push-AllQueued ActivityHeld type (s.id, content) held (s, i, refl, e) h
  hold-AllQueued s _ held i e h = h

  pub held-AllQueued :
      (held : Dict (List (String × Fields))) (ms : List Message)
      → ((s : Message) → In s ms → In s stored)
      → AllQueued ActivityHeld held
      → AllQueued ActivityHeld (held_of held ms)
  unfolding held_of
  held-AllQueued held [] sub h = h
  held-AllQueued held (m ∷ ms) sub h =
      held-AllQueued (hold m.id m.body held) ms (λ s i. sub s (inr i))
        (hold-AllQueued m m.body held (sub m (inl refl)) refl h)

pub scan_sound :
    (i : ℕ) (row : Row) (key : Key) (j : ℕ) (x : String)
    → scan i row key ≡ some (j, x)
    → (k : Key) × In (k, x) row × (same_key k key ≡ true)
unfolding scan
scan_sound i [] key j x e = cc
scan_sound i ((k, y) ∷ row) key j x e = elim (Bool-cases (same_key k key)) [
  | inl h ↦
      let here : some (i, y) ≡ some (j, x) = rw h at e in
      let same : y ≡ x = cc here in (k, inl (ap (λ z. (k, z)) same), h)
  | inr h ↦ let rest = scan_sound (i + 1) row key j x (rw h at e) in (rest.0, inr rest.1, rest.2)
]
