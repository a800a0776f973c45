-- ===== src/Relabel.antt =====
-- The loop that gives messages other ids: `RunTranscript.with_streamed_ids` and `lend_stored_ids`
-- walk the messages, choose an id for each, and lend it unless it is refused or already lent.
use django_ag_ui.Base.{
  String, List, Option, Bool, true, false, none, some, [], ◌∷◌, ◌≡◌, refl, ◌||◌, ap, contains,
  if◌then◌else◌, inl, inr, Bool-cases, or_false, ◌==◌, ◌⊎◌, eq_iff, eq_refl, subst, arith,
}
use django_ag_ui.Wire.{Message, with_id}

abbrev pub apply_id : Option String → Message → Message
apply_id none m = m
apply_id (some x) m = with_id x m

-- Every message under the id it is lent, if any.
abbrev pub apply_ids : List (Option String) → List Message → List Message
apply_ids (g ∷ gs) (m ∷ ms) = apply_id g m ∷ apply_ids gs ms
apply_ids _ ms = ms

-- No id is lent twice, and none of `taken` is lent at all.
abbrev pub Fresh : List String → List (Option String) → Type 0
Fresh taken [] = Unit
Fresh taken (none ∷ gs) = Fresh taken gs
Fresh taken (some x ∷ gs) = (contains taken x ≡ false) × Fresh (x ∷ taken) gs

-- Each message keeps its own id, or is lent one for which `Ok` holds.
abbrev pub Lent : (Message → String → Type 0) → List Message → List (Option String) → Type 0
Lent Ok [] [] = Unit
Lent Ok (m ∷ ms) (none ∷ gs) = Lent Ok ms gs
Lent Ok (m ∷ ms) (some x ∷ gs) = Ok m x × Lent Ok ms gs
Lent Ok _ _ = ⊥

abbrev granted : (String → Bool) → List String → Option String → Option String
granted refused taken none = none
granted refused taken (some x) = if contains taken x || refused x then none else some x

abbrev claim : Option String → List String → List String
claim none taken = taken
claim (some x) taken = x ∷ taken

module _ {S : Type 0} (choose : S → Message → Option String × S) (refused : String → Bool) where
  -- The id lent to each message.
  unfoldable pub grants : S → List String → List Message → List (Option String)
  grants s taken [] = []
  grants s taken (m ∷ ms) =
      let g = granted refused taken (choose s m).0 in g ∷ grants (choose s m).1 (claim g taken) ms

  -- The loop: `s` is what the choices consume, `taken` the ids already lent.
  unfoldable pub relabel : S → List String → List Message → List Message
  relabel s taken [] = []
  relabel s taken (m ∷ ms) =
      let g = granted refused taken (choose s m).0 in
      apply_id g m ∷ relabel (choose s m).1 (claim g taken) ms

  pub relabel-apply_ids :
      (s : S) (taken : List String) (ms : List Message)
      → relabel s taken ms ≡ apply_ids (grants s taken ms) ms
  unfolding relabel grants
  relabel-apply_ids s taken [] = refl
  relabel-apply_ids s taken (m ∷ ms) =
      let g = granted refused taken (choose s m).0 in
      ap (λ l. apply_id g m ∷ l) (relabel-apply_ids (choose s m).1 (claim g taken) ms)

  Fresh-step :
      (taken : List String) (o : Option String) (gs : List (Option String))
      → Fresh (claim (granted refused taken o) taken) gs
      → Fresh taken (granted refused taken o ∷ gs)
  Fresh-step taken none gs h = h
  Fresh-step taken (some x) gs h = elim (Bool-cases (contains taken x || refused x)) [
    | inl e ↦ rw e (rw e at h)
    | inr e ↦ rw e ((or_false _ _ e).0, rw e at h)
  ]

  pub grants-Fresh :
      (s : S) (taken : List String) (ms : List Message) → Fresh taken (grants s taken ms)
  unfolding grants
  grants-Fresh s taken [] = tt
  grants-Fresh s taken (m ∷ ms) =
      Fresh-step taken (choose s m).0 _
        (grants-Fresh (choose s m).1 (claim (granted refused taken (choose s m).0) taken) ms)

  -- What is lent is what was chosen, and is not refused.
  module _ (Inv : S → List Message → Type 0) (Ok : Message → String → Type 0) where
    abbrev Allowed : Message → String → Type 0
    Allowed m x = Ok m x × (refused x ≡ false)

    Lent-step :
        (taken : List String) (o : Option String) (m : Message) (ms : List Message)
        (gs : List (Option String))
        → ((x : String) → o ≡ some x → Ok m x)
        → Lent Allowed ms gs
        → Lent Allowed (m ∷ ms) (granted refused taken o ∷ gs)
    Lent-step taken none m ms gs ok h = h
    Lent-step taken (some x) m ms gs ok h = elim (Bool-cases (contains taken x || refused x)) [
      | inl e ↦ rw e h
      | inr e ↦ rw e ((ok x refl, (or_false _ _ e).1), h)
    ]

    pub grants-Lent :
        ((s : S) (m : Message) (ms : List Message) → Inv s (m ∷ ms) → Inv (choose s m).1 ms)
        → ((s : S) (m : Message) (ms : List Message) (x : String)
            → Inv s (m ∷ ms)
            → (choose s m).0 ≡ some x
            → Ok m x)
        → (s : S) (taken : List String) (ms : List Message) → Inv s ms
        → Lent Allowed ms (grants s taken ms)
    unfolding grants
    grants-Lent keep sound s taken [] i = tt
    grants-Lent keep sound s taken (m ∷ ms) i =
        Lent-step taken (choose s m).0 m ms _ (λ x e. sound s m ms x i e)
          (grants-Lent keep sound (choose s m).1
            (claim (granted refused taken (choose s m).0) taken) ms (keep s m ms i))

pub Lent-weaken :
    {P Q : Message → String → Type 0} (ms : List Message) (gs : List (Option String))
    → ((m : Message) (x : String) → P m x → Q m x)
    → Lent P ms gs
    → Lent Q ms gs
Lent-weaken [] [] f h = tt
Lent-weaken [] (g ∷ gs) f h = h
Lent-weaken (m ∷ ms) [] f h = h
Lent-weaken (m ∷ ms) (none ∷ gs) f h = Lent-weaken ms gs f h
Lent-weaken (m ∷ ms) (some x ∷ gs) f h = (f m x h.0, Lent-weaken ms gs f h.1)

abbrev pub message_ids : List Message → List String
message_ids [] = []
message_ids (m ∷ ms) = m.id ∷ message_ids ms

abbrev pub Distinct : List String → Type 0
Distinct [] = Unit
Distinct (x ∷ xs) = (contains xs x ≡ false) × Distinct xs

module _ (carried : List String) where
  abbrev Free : Message → String → Type 0
  Free m x = contains carried x ≡ false

  -- An id of the result is an id it had, or one lent: not taken, and carried by none.
  id_cases :
      (taken : List String) (ms : List Message) (gs : List (Option String)) (y : String)
      → Fresh taken gs
      → Lent Free ms gs
      → contains (message_ids (apply_ids gs ms)) y ≡ true
      → (contains (message_ids ms) y ≡ true)
        ⊎ ((contains taken y ≡ false) × (contains carried y ≡ false))
  id_cases taken [] [] y f l h = cc
  id_cases taken [] (g ∷ gs) y f l h = absurd l
  id_cases taken (m ∷ ms) [] y f l h = absurd l
  id_cases taken (m ∷ ms) (none ∷ gs) y f l h = ground (arith, id_cases taken ms gs y f l)
  id_cases taken (m ∷ ms) (some x ∷ gs) y f l h = elim (Bool-cases (x == y)) [
    | inl e ↦
        let same : x ≡ y = (eq_iff x y).0 e in
        inr (
          subst (λ z. contains taken z ≡ false) same f.0,
          subst (λ z. contains carried z ≡ false) same l.0,
        )
    | inr e ↦ ground (arith, id_cases (x ∷ taken) ms gs y f.1 l.1)
  ]

  -- No two messages of the result share an id, if no two of the given ones do.
  pub apply_ids-Distinct :
      (taken : List String) (ms : List Message) (gs : List (Option String))
      → Fresh taken gs
      → Lent Free ms gs
      → ((y : String) → contains (message_ids ms) y ≡ true → contains carried y ≡ true)
      → Distinct (message_ids ms)
      → Distinct (message_ids (apply_ids gs ms))
  apply_ids-Distinct taken [] [] f l sub d = tt
  apply_ids-Distinct taken [] (g ∷ gs) f l sub d = absurd l
  apply_ids-Distinct taken (m ∷ ms) [] f l sub d = absurd l
  apply_ids-Distinct taken (m ∷ ms) (none ∷ gs) f l sub d = (
    ground (arith, id_cases taken ms gs m.id f l, sub m.id, eq_refl m.id),
    apply_ids-Distinct taken ms gs f l (λ y h. sub y (ground arith)) d.1,
  )
  apply_ids-Distinct taken (m ∷ ms) (some x ∷ gs) f l sub d = (
    ground (arith, id_cases (x ∷ taken) ms gs x f.1 l.1, sub x, eq_refl x),
    apply_ids-Distinct (x ∷ taken) ms gs f.1 l.1 (λ y h. sub y (ground arith)) d.1,
  )
