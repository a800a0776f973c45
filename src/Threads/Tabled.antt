-- ===== src/Threads/Tabled.antt =====
-- What the tables that collect a thread's activities hold in the end
-- (`_with_activities` of django_ag_ui/persistence/threads_view.py).
use django_ag_ui.Base.{
  String, List, Option, Bool, true, false, none, some, [], ◌∷◌, ◌++◌, ◌==◌, ◌≡◌, ◌⊎◌, refl, sym, ap,
  ◌∙◌, subst, not, contains, map, All, All-weaken, if◌then◌else◌, Bool-cases, inl, inr, eq_iff,
  eq_refl, append_assoc, append-nil, or_false,
}
use django_ag_ui.Base.Dict.{lookup, lookup-insert}
use django_ag_ui.Threads.{ThreadActivity, Tables, known_anchor, noted, tabled}

-- The activities that are the first of their id, in order.
abbrev pub firsts : List String → List ThreadActivity → List ThreadActivity
firsts seen [] = []
firsts seen (a ∷ as') =
    if contains seen a.message_id then firsts seen as' else a ∷ firsts (a.message_id ∷ seen) as'

-- The last of the activities with the id of a given one.
abbrev pub latest : ThreadActivity → List ThreadActivity → ThreadActivity
latest f [] = f
latest f (a ∷ as') = latest (if a.message_id == f.message_id then a else f) as'

abbrev pub goes_after : String → Option String → Bool
goes_after k none = false
goes_after k (some anchor) = anchor == k

abbrev pub goes_last : List String → Option String → Bool
goes_last known none = true
goes_last known (some anchor) = not (contains known anchor)

noted_events :
    (known : List String) (a : ThreadActivity) (t : Tables) (o : Option ThreadActivity) (k : String)
    → lookup k (noted known a t o).events
      ≡ (if a.message_id == k then some a else lookup k t.events)
noted_events known a t none k = lookup-insert a.message_id k a t.events
noted_events known a t (some e) k = lookup-insert a.message_id k a t.events

events_after :
    (known : List String) (as' : List ThreadActivity) (t : Tables) (k : String) (e : ThreadActivity)
    → e.message_id ≡ k
    → lookup k t.events ≡ some e
    → lookup k (tabled known as' t).events ≡ some (latest e as')
unfolding tabled
events_after known [] t k e same h = h
events_after known (a ∷ as') t k e same h =
    let n = noted_events known a t (lookup a.message_id t.events) k in
    elim (Bool-cases (a.message_id == e.message_id)) [
      | inl b ↦
          let q : a.message_id ≡ k = (eq_iff a.message_id e.message_id).0 b ∙ same in
          let c : (a.message_id == k) ≡ true = (eq_iff a.message_id k).1 q in
          rw b (events_after known as' _ k a q (n ∙ rw c))
      | inr b ↦
          let c : (a.message_id == k) ≡ false = rw⁻¹ same b in
          rw b (events_after known as' _ k e same (n ∙ rw c h))
    ]

noted_anchor :
    (known : List String) (a : ThreadActivity) (t : Tables) (o : Option ThreadActivity) (k : String)
    (e : ThreadActivity)
    → lookup a.message_id t.events ≡ o
    → lookup k t.events ≡ some e
    → lookup k (noted known a t o).anchors ≡ lookup k t.anchors
noted_anchor known a t (some f) k e g h = refl
noted_anchor known a t none k e g h =
    lookup-insert a.message_id k (known_anchor known a.after_message_id) t.anchors
    ∙ elim (Bool-cases (a.message_id == k)) [
      | inl b ↦
          let clash : none ≡ some e =
            sym g ∙ ap (λ z. lookup z t.events) ((eq_iff a.message_id k).0 b) ∙ h in
          cc clash
      | inr b ↦ rw b
    ]

anchors_after :
    (known : List String) (as' : List ThreadActivity) (t : Tables) (k : String) (e : ThreadActivity)
    → lookup k t.events ≡ some e
    → lookup k (tabled known as' t).anchors ≡ lookup k t.anchors
unfolding tabled
anchors_after known [] t k e h = refl
anchors_after known (a ∷ as') t k e h =
    let o = lookup a.message_id t.events in
    let n = noted_events known a t o k in
    let q = noted_anchor known a t o k e refl h in
    elim (Bool-cases (a.message_id == k)) [
      | inl b ↦ anchors_after known as' (noted known a t o) k a (n ∙ rw b) ∙ q
      | inr b ↦ anchors_after known as' (noted known a t o) k e (n ∙ rw b h) ∙ q
    ]

-- The tables know the activities seen, and no other.
abbrev pub Seen : List String → Tables → Type 0
Seen seen t =
    (k : String)
    → ((contains seen k ≡ false) × (lookup k t.events ≡ none))
      ⊎ ((contains seen k ≡ true) × ((e : ThreadActivity) × (lookup k t.events ≡ some e)))

-- What the tables at the end say of the first activity of an id.
abbrev pub Tabled :
    List String → List String → List ThreadActivity → Tables → ThreadActivity → Type 0
Tabled known seen as' t f =
    (contains seen f.message_id ≡ false)
    × (lookup f.message_id t.events ≡ some (latest f as'))
    × (lookup f.message_id t.anchors ≡ some (known_anchor known f.after_message_id))

module _ (known : List String) where
  Seen-noted_new :
      (seen : List String) (t : Tables) (a : ThreadActivity)
      → Seen seen t
      → Seen (a.message_id ∷ seen) (noted known a t none)
  Seen-noted_new seen t a s k = elim (Bool-cases (a.message_id == k)) [
    | inl b ↦ inr (rw b refl, (a, noted_events known a t none k ∙ rw b refl))
    | inr b ↦ rw (noted_events known a t none k, b) (s k)
  ]

  Seen-noted_known :
      (seen : List String) (t : Tables) (a e : ThreadActivity)
      → contains seen a.message_id ≡ true
      → Seen seen t
      → Seen seen (noted known a t (some e))
  Seen-noted_known seen t a e c s k = elim (Bool-cases (a.message_id == k)) [
    | inl b ↦ inr (
      subst (λ z. contains seen z ≡ true) ((eq_iff a.message_id k).0 b) c,
      (a, noted_events known a t (some e) k ∙ rw b refl),
    )
    | inr b ↦ rw (noted_events known a t (some e) k, b) (s k)
  ]

  pub tabled_order :
      (as' : List ThreadActivity) (seen : List String) (t : Tables)
      → Seen seen t
      → (tabled known as' t).order ≡ t.order ++ map (λ f. f.message_id) (firsts seen as')
  unfolding tabled
  tabled_order [] seen t s = sym (append-nil t.order)
  tabled_order (a ∷ as') seen t s = elim (s a.message_id) [
    | inl (c, g) ↦
        ap (λ z. (tabled known as' (noted known a t z)).order) g
        ∙ rw c (
            tabled_order as' (a.message_id ∷ seen) (noted known a t none)
              (Seen-noted_new seen t a s)
            ∙ append_assoc t.order (a.message_id ∷ []) _)
    | inr (c, (e, g)) ↦
        ap (λ z. (tabled known as' (noted known a t z)).order) g
        ∙ rw c (tabled_order as' seen (noted known a t (some e)) (Seen-noted_known seen t a e c s))
  ]

  Tabled-cons :
      (seen : List String) (as' : List ThreadActivity) (t : Tables) (a f : ThreadActivity)
      → (a.message_id == f.message_id) ≡ false
      → Tabled known seen as' t f
      → Tabled known seen (a ∷ as') t f
  Tabled-cons seen as' t a f n h = (h.0, rw n h.1, h.2)

  other_id :
      (seen : List String) (i j : String)
      → contains seen i ≡ true
      → contains seen j ≡ false
      → (i == j) ≡ false
  other_id seen i j c d = elim (Bool-cases (i == j)) [
    | inl b ↦
        let clash : true ≡ false = sym c ∙ ap (contains seen) ((eq_iff i j).0 b) ∙ d in cc clash
    | inr b ↦ b
  ]

  pub All-Tabled :
      (as' : List ThreadActivity) (seen : List String) (t : Tables)
      → Seen seen t
      → All (Tabled known seen as' (tabled known as' t)) (firsts seen as')
  unfolding tabled
  All-Tabled [] seen t s = tt
  All-Tabled (a ∷ as') seen t s = elim (s a.message_id) [
    | inl (c, g) ↦
        let n = noted_events known a t none a.message_id ∙ rw eq_refl refl in
        let last = events_after known as' (noted known a t none) a.message_id a refl n in
        let anchored =
          anchors_after known as' (noted known a t none) a.message_id a n
          ∙ lookup-insert a.message_id a.message_id (known_anchor known a.after_message_id)
              t.anchors
          ∙ rw eq_refl refl in
        rw (g, c)
          (
            (c, rw eq_refl last, anchored),
            All-weaken (firsts (a.message_id ∷ seen) as')
                (λ f h.
                  let both =
                    or_false (a.message_id == f.message_id) (contains seen f.message_id) h.0 in
                  Tabled-cons seen as' (tabled known as' (noted known a t none)) a f both.0
                    (both.1, h.1, h.2))
                (All-Tabled as' (a.message_id ∷ seen) (noted known a t none)
                  (Seen-noted_new seen t a s)),
          )
    | inr (c, (e, g)) ↦
        rw (g, c)
          (All-weaken (firsts seen as')
            (λ f h.
              Tabled-cons seen as' (tabled known as' (noted known a t (some e))) a f
                (other_id seen a.message_id f.message_id c h.0) h)
            (All-Tabled as' seen (noted known a t (some e)) (Seen-noted_known seen t a e c s)))
  ]
