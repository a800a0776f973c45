-- ===== src/Threads/Merge.antt =====
-- Where the activities of a thread end up among its messages
-- (`_with_activities` of django_ag_ui/persistence/threads_view.py).
use django_ag_ui.Base.{
  String, List, Option, Bool, true, false, none, some, [], ◌∷◌, ◌++◌, ◌==◌, ◌≡◌, refl, sym, ap,
  fun_ext, ap₂, ◌∙◌, contains, map, keep_if, All, if◌then◌else◌, and_then, Bool-cases, inl, inr,
  eq_iff, eq_refl, arith, append_assoc, append-nil,
}
use django_ag_ui.Base.Dict.{lookup, update, or_nil, or_nil-push}
use django_ag_ui.Wire.{Message}
use django_ag_ui.Relabel.{message_ids}
use django_ag_ui.Threads.{
  ThreadActivity, Tables, known_anchor, tabled, as_activity_message, Placed, placed_at, placed,
  merged, merged_all, no_tables, with_activities,
}
use django_ag_ui.Threads.Tabled.{
  firsts, latest, goes_after, goes_last, Seen, Tabled, tabled_order, All-Tabled,
}

-- The message an activity is shown as: it stands where the first of its id was put and has the
-- content of the last.
abbrev pub shown : List ThreadActivity → ThreadActivity → Message
unfolding as_activity_message
shown activities f = as_activity_message (latest f activities)

abbrev pub kept : List ThreadActivity → (Option String → Bool) → List ThreadActivity → List Message
unfolding shown
kept activities p fs = map (shown activities) (keep_if (λ f. p f.after_message_id) fs)

-- Every message, followed by the activities that go after it, and the activities that go last.
abbrev pub threaded : List String → List ThreadActivity → List Message → List Message
unfolding kept
threaded known activities [] = kept activities (goes_last known) (firsts [] activities)
threaded known activities (m ∷ ms) =
    (m ∷ kept activities (goes_after m.id) (firsts [] activities)) ++ threaded known activities ms

is_none : Option String → Bool
is_none none = true
is_none (some k) = false

abbrev one_if : Bool → Message → List Message
one_if true m = m ∷ []
one_if false m = []

push_if :
    (b : Bool) (l : List Message) (m : Message) → (if b then l ++ m ∷ [] else l) ≡ l ++ one_if b m
push_if true l m = refl
push_if false l m = sym (append-nil l)

placed_at_lem :
    (e : ThreadActivity) (o : Option String) (p : Placed)
    → (q : Placed) × (placed_at (some e) (some o) p ≡ some q)
      × (q.0 ≡ p.0 ++ one_if (is_none o) (as_activity_message e))
      × ((k : String)
          → or_nil (lookup k q.1)
            ≡ or_nil (lookup k p.1) ++ one_if (goes_after k o) (as_activity_message e))
unfolding placed_at is_none
placed_at_lem e none p =
    ((p.0 ++ as_activity_message e ∷ [], p.1), refl, refl, λ k. sym (append-nil _))
placed_at_lem e (some anchor) p = (
  (p.0, update anchor [] (λ q. q ++ as_activity_message e ∷ []) p.1),
  refl,
  sym (append-nil p.0),
  λ k.
      or_nil-push anchor k (as_activity_message e) p.1
      ∙ push_if (anchor == k) (or_nil (lookup k p.1)) (as_activity_message e),
)

kept-cons :
    (activities : List ThreadActivity) (p : Option String → Bool) (f : ThreadActivity)
    (fs : List ThreadActivity)
    → kept activities p (f ∷ fs)
      ≡ one_if (p f.after_message_id) (shown activities f) ++ kept activities p fs
unfolding kept
kept-cons activities p f fs = elim (Bool-cases (p f.after_message_id)) [
  | inl b ↦ rw b refl
  | inr b ↦ rw b refl
]

module _ (known : List String) (activities : List ThreadActivity) (t : Tables) where
  trailing : List ThreadActivity → List Message
  unfolding kept is_none
  trailing fs = kept activities (λ o. is_none (known_anchor known o)) fs

  after : String → List ThreadActivity → List Message
  unfolding kept
  after k fs = kept activities (λ o. goes_after k (known_anchor known o)) fs

  -- The two places after the loop over some first activities.
  PlacedOf : List ThreadActivity → Placed → Placed → Type 0
  PlacedOf fs p q =
      (q.0 ≡ p.0 ++ trailing fs)
      × ((k : String) → or_nil (lookup k q.1) ≡ or_nil (lookup k p.1) ++ after k fs)

  placed_lem :
      (fs : List ThreadActivity) (p : Placed)
      → All (Tabled known [] activities t) fs
      → (q : Placed) × (placed t (map (λ f. f.message_id) fs) p ≡ some q) × PlacedOf fs p q
  unfolding placed PlacedOf trailing after is_none kept
  placed_lem [] p h =
      (p, refl, (sym (append-nil p.0), λ k. sym (append-nil (or_nil (lookup k p.1)))))
  placed_lem (f ∷ fs) p h =
      let o = known_anchor known f.after_message_id in
      let step = placed_at_lem (latest f activities) o p in
      let rest = placed_lem fs step.0 h.1 in
      (
        rest.0,
        ap₂ (λ e a. and_then (placed_at e a p) (λ q. placed t (map (λ g. g.message_id) fs) q)) h.0.1
              h.0.2
            ∙ ap (λ q. and_then q (λ q. placed t (map (λ g. g.message_id) fs) q)) step.1
            ∙ rest.1,
        (
          rest.2.0
              ∙ ap (λ l. l ++ trailing fs) step.2
              ∙ append_assoc p.0 _ (trailing fs)
              ∙ ap (λ l. p.0 ++ l)
                  (sym (kept-cons activities (λ z. is_none (known_anchor known z)) f fs)),
          λ k.
              rest.2.1 k
              ∙ ap (λ l. l ++ after k fs) (step.3 k)
              ∙ append_assoc (or_nil (lookup k p.1)) _ (after k fs)
              ∙ ap (λ l. or_nil (lookup k p.1) ++ l)
                  (sym (kept-cons activities (λ z. goes_after k (known_anchor known z)) f fs)),
        ),
      )

  is_none-known_anchor : (o : Option String) → is_none (known_anchor known o) ≡ goes_last known o
  unfolding is_none
  is_none-known_anchor none = refl
  is_none-known_anchor (some anchor) = elim (Bool-cases (contains known anchor)) [
    | inl b ↦ rw b refl
    | inr b ↦ rw b refl
  ]

  goes_after-known_anchor :
      (k : String) (o : Option String)
      → contains known k ≡ true
      → goes_after k (known_anchor known o) ≡ goes_after k o
  goes_after-known_anchor k none c = refl
  goes_after-known_anchor k (some anchor) c = elim (Bool-cases (contains known anchor)) [
    | inl b ↦ rw b refl
    | inr b ↦ rw b (elim (Bool-cases (anchor == k)) [
      | inl e ↦
          let clash : false ≡ true = sym b ∙ ap (contains known) ((eq_iff anchor k).0 e) ∙ c in
          cc clash
      | inr e ↦ sym e
    ])
  ]

  merged_lem :
      (fs : List ThreadActivity) (ms : List Message) (q : Placed)
      → fs ≡ firsts [] activities
      → q.0 ≡ trailing fs
      → ((k : String) → or_nil (lookup k q.1) ≡ after k fs)
      → All (λ m. contains known m.id ≡ true) ms
      → merged ms q ≡ threaded known activities ms
  unfolding merged trailing after
  merged_lem fs [] q f l a h =
      l
      ∙ ap (λ p. kept activities p fs) (fun_ext is_none-known_anchor)
      ∙ ap (λ gs. kept activities (goes_last known) gs) f
  merged_lem fs (m ∷ ms) q f l a h =
      ap₂ (λ x y. (m ∷ x) ++ y)
        (a m.id
          ∙ ap (λ p. kept activities p fs) (fun_ext (λ o. goes_after-known_anchor m.id o h.0))
          ∙ ap (λ gs. kept activities (goes_after m.id) gs) f)
        (merged_lem fs ms q f l a h.1)

ids_known :
    (known : List String) (ms : List Message)
    → ((k : String) → contains (message_ids ms) k ≡ true → contains known k ≡ true)
    → All (λ m. contains known m.id ≡ true) ms
ids_known known [] h = tt
ids_known known (m ∷ ms) h =
    (h m.id (rw eq_refl refl), ids_known known ms (λ k c. h k (ground (arith, c))))

-- The messages of a thread are returned whole and in order, with each activity id shown exactly
-- where the first activity of that id was put (after its message, or at the end where it names no
-- message of the thread) and with the content of the last one; no lookup of the merge fails.
pub with_activities-eq-threaded :
    (ms : List Message) (activities : List ThreadActivity)
    → with_activities ms activities ≡ some (threaded (message_ids ms) activities ms)
unfolding with_activities trailing after PlacedOf
with_activities-eq-threaded ms activities =
    let known = message_ids ms in
    let fs = firsts [] activities in
    let t = tabled known activities no_tables in
    let empty : Seen [] no_tables = λ k. inl (refl, refl) in
    let r =
      placed_lem known activities t fs ([], []) (All-Tabled known activities [] no_tables empty) in
    let o = tabled_order known activities [] no_tables empty in
    ap (λ ks. merged_all ms (placed t ks ([], []))) o
    ∙ ap (merged_all ms) r.1
    ∙ ap some
        (merged_lem known activities t fs ms r.0 refl r.2.0 r.2.1 (ids_known known ms (λ k c. c)))
