-- ===== src/Base/Lists.antt =====
-- Lists measured by native numbers, membership tests on text keys, and predicates on lists.
use Prim.Native.Nat.{ℕ, zero, suc, ◌+◌, ◌-◌, ◌≤◌, min}
use Prim.Native.String.{String}
use mathlib.Core.Path.{◌≡◌, refl, ap}
use mathlib.Core.Logic.{◌⊎◌, inl, inr}
use mathlib.Core.Bool.{Bool, true, false, ◌||◌, ◌&&◌}
use mathlib.Core.Option.{Option, none, some}
use mathlib.Core.List.{List, [], ◌∷◌, ◌++◌}
use native.Mathlib.Omega.{arith}
use text.Mathlib.Text.{◌==◌}
use django_ag_ui.Base.Tests.{Bool-cases, if◌then◌else◌}

module _ {ℓ} {A : Type ℓ} where
  abbrev pub length : List A → ℕ
  length [] = 0
  length (x ∷ xs) = suc (length xs)

  abbrev pub get_elem? : List A → ℕ → Option A
  get_elem? [] i = none
  get_elem? (x ∷ xs) zero = some x
  get_elem? (x ∷ xs) (suc i) = get_elem? xs i

  abbrev pub take : ℕ → List A → List A
  take zero xs = []
  take (suc n) [] = []
  take (suc n) (x ∷ xs) = x ∷ take n xs

  abbrev pub drop : ℕ → List A → List A
  drop zero xs = xs
  drop (suc n) [] = []
  drop (suc n) (x ∷ xs) = drop n xs

  pub length-append : (xs ys : List A) → length (xs ++ ys) ≡ length xs + length ys
  length-append [] ys = omega arith
  length-append (x ∷ xs) ys = omega (arith, length-append xs ys)

  pub length-take : (n : ℕ) (xs : List A) → length (take n xs) ≡ min n (length xs)
  length-take zero xs = omega arith
  length-take (suc n) [] = omega arith
  length-take (suc n) (x ∷ xs) = omega (arith, length-take n xs)

  pub length-drop : (n : ℕ) (xs : List A) → length (drop n xs) ≡ length xs - n
  length-drop zero xs = omega arith
  length-drop (suc n) [] = omega arith
  length-drop (suc n) (x ∷ xs) = omega (arith, length-drop n xs)

  pub take-append-drop : (n : ℕ) (xs : List A) → take n xs ++ drop n xs ≡ xs
  take-append-drop zero xs = refl
  take-append-drop (suc n) [] = refl
  take-append-drop (suc n) (x ∷ xs) = ap (λ l. x ∷ l) (take-append-drop n xs)

  -- A comprehension `[x for x in xs if p(x)]`.
  abbrev pub keep_if : (A → Bool) → List A → List A
  keep_if p [] = []
  keep_if p (x ∷ xs) = if p x then x ∷ keep_if p xs else keep_if p xs

  abbrev pub any : (A → Bool) → List A → Bool
  any p [] = false
  any p (x ∷ xs) = p x || any p xs

  abbrev pub all : (A → Bool) → List A → Bool
  all p [] = true
  all p (x ∷ xs) = p x && all p xs

  abbrev pub All {κ} : (A → Type κ) → List A → Type κ
  All P [] = Unit
  All P (x ∷ xs) = P x × All P xs

-- `x in xs` for texts.
abbrev pub contains : List String → String → Bool
contains [] k = false
contains (x ∷ xs) k = x == k || contains xs k

-- Membership as a type that computes, which the tactics read.
abbrev pub In : {A : Type 0} → A → List A → Type 0
In a [] = ⊥
In a (x ∷ xs) = (x ≡ a) ⊎ In a xs

pub All-weaken :
    {A : Type 0} {P Q : A → Type 0} (xs : List A) → ((a : A) → P a → Q a) → All P xs → All Q xs
All-weaken [] f h = tt
All-weaken (x ∷ xs) f h = (f x h.0, All-weaken xs f h.1)

-- What is kept of a list, and how much.
module _ {ℓ} {A : Type ℓ} (p : A → Bool) where
  kept_length :
      (b : Bool) (x : A) (ys xs : List A)
      → length ys ≤ length xs
      → length (if b then x ∷ ys else ys) ≤ suc (length xs)
  kept_length true x ys xs h = omega (arith, h)
  kept_length false x ys xs h = omega (arith, h)

  pub length-keep_if : (xs : List A) → length (keep_if p xs) ≤ length xs
  length-keep_if [] = omega arith
  length-keep_if (x ∷ xs) = kept_length (p x) x (keep_if p xs) xs (length-keep_if xs)

  -- Nothing is left out where the lengths agree.
  kept_whole :
      (b : Bool) (x : A) (ys xs : List A)
      → length ys ≤ length xs
      → (length ys ≡ length xs → ys ≡ xs)
      → length (if b then x ∷ ys else ys) ≡ suc (length xs)
      → (if b then x ∷ ys else ys) ≡ x ∷ xs
  kept_whole true x ys xs h f e = ap (λ l. x ∷ l) (f (omega (arith, e)))
  kept_whole false x ys xs h f e = let clash : ⊥ = omega (arith, h, e) in absurd clash

  pub keep_if_whole : (xs : List A) → length (keep_if p xs) ≡ length xs → keep_if p xs ≡ xs
  keep_if_whole [] e = refl
  keep_if_whole (x ∷ xs) e =
      kept_whole (p x) x (keep_if p xs) xs (length-keep_if xs) (keep_if_whole xs) e

  pub keep_if-All : (xs : List A) → All (λ x. p x ≡ true) xs → keep_if p xs ≡ xs
  keep_if-All [] h = refl
  keep_if-All (x ∷ xs) h = rw h.0 (ap (λ l. x ∷ l) (keep_if-All xs h.1))

  pub All-keep_if : (xs : List A) → All (λ x. p x ≡ true) (keep_if p xs)
  All-keep_if [] = tt
  All-keep_if (x ∷ xs) = elim (Bool-cases (p x)) [
    | inl b ↦ rw b (b, All-keep_if xs)
    | inr b ↦ rw b (All-keep_if xs)
  ]

module _ {ℓ} {A : Type ℓ} (p q : A → Bool) (h : (x : A) → q x ≡ true → p x ≡ true) where
  kept_again :
      (b c : Bool) (x : A) (ys xs : List A)
      → q x ≡ c
      → (c ≡ true → b ≡ true)
      → keep_if q ys ≡ keep_if q xs
      → keep_if q (if b then x ∷ ys else ys) ≡ keep_if q (x ∷ xs)
  kept_again true true x ys xs e f g = rw (e, g) refl
  kept_again true false x ys xs e f g = rw (e, g) refl
  kept_again false true x ys xs e f g = let clash : false ≡ true = f refl in cc clash
  kept_again false false x ys xs e f g = rw e g

  -- A test that only passes where another does is not changed by the other.
  pub keep_if_again : (xs : List A) → keep_if q (keep_if p xs) ≡ keep_if q xs
  keep_if_again [] = refl
  keep_if_again (x ∷ xs) = kept_again (p x) (q x) x (keep_if p xs) xs refl (h x) (keep_if_again xs)
