-- ===== src/Base/Texts.antt =====
-- Python's `str` where the code looks inside one: the list of its code points.
use Prim.Native.Nat.{ℕ, zero, suc, ◌+◌, ◌/◌, ◌%◌}
use Prim.Native.Char.{code}
use Prim.Native.String.{String}
use mathlib.Core.Bool.{Bool, true, false, ◌&&◌}
use mathlib.Core.List.{List, [], ◌∷◌, ◌++◌}
use mathlib.Core.Path.{◌≡◌, refl}
use native.Mathlib.Omega.{arith}
use mathlib.Core.Logic.{inl, inr}
use django_ag_ui.Base.Tests.{Bool-cases, nat_eq, ltb, if◌then◌else◌}

abbrev pub Text : Type 0
Text = List ℕ

abbrev pub codes : String → Text
codes String.[] = []
codes (String.◌∷◌ c s) = code c ∷ codes s

-- `"".join(parts)`
abbrev pub join : List Text → Text
join [] = []
join (t ∷ ts) = t ++ join ts

abbrev pub text_eq : Text → Text → Bool
text_eq [] [] = true
text_eq (a ∷ s) (b ∷ t) = nat_eq a b && text_eq s t
text_eq _ _ = false

abbrev pub is_empty {ℓ} : {A : Type ℓ} → List A → Bool
is_empty [] = true
is_empty (x ∷ xs) = false

-- `text.replace("\n", "")`
abbrev pub without_newlines : Text → Text
without_newlines [] = []
without_newlines (c ∷ s) = let rest = without_newlines s in if nat_eq c 10 then rest else c ∷ rest

-- The decimal digits of a number, on fuel; `n + 1` rounds are enough for `n`.
pub digits_from : ℕ → ℕ → Text → Text
digits_from zero n acc = acc
digits_from (suc fuel) n acc =
    let more = digits_from fuel (n / 10) ((48 + n % 10) ∷ acc) in
    if ltb n 10 then (48 + n) ∷ acc else more

-- `str(n)`
unfoldable pub decimal : ℕ → Text
unfolding digits_from
decimal n = digits_from (n + 1) n []

pub text_eq_refl : (s : Text) → text_eq s s ≡ true
text_eq_refl [] = refl
text_eq_refl (c ∷ s) = ground (arith, text_eq_refl s)

pub text_eq_sound : (s t : Text) → text_eq s t ≡ true → s ≡ t
text_eq_sound [] [] h = refl
text_eq_sound [] (d ∷ t) h = cc
text_eq_sound (c ∷ s) [] h = cc
text_eq_sound (c ∷ s) (d ∷ t) h = ground (arith, text_eq_sound s t)

-- A number is written in digits.
abbrev pub Digits : Text → Type 0
Digits [] = Unit
Digits (c ∷ s) = (ltb c 58 ≡ true) × Digits s

digits_from-Digits : (fuel n : ℕ) (acc : Text) → Digits acc → Digits (digits_from fuel n acc)
unfolding digits_from
digits_from-Digits zero n acc h = h
digits_from-Digits (suc fuel) n acc h = elim (Bool-cases (ltb n 10)) [
  | inl b ↦ rw b (ground (arith, b), h)
  | inr b ↦ rw b (digits_from-Digits fuel (n / 10) ((48 + n % 10) ∷ acc) (ground arith, h))
]

pub decimal-Digits : (n : ℕ) → Digits (decimal n)
unfolding decimal
decimal-Digits n = digits_from-Digits (n + 1) n [] tt

-- `text.startswith(prefix)`
unfoldable pub starts_with : Text → Text → Bool
starts_with t [] = true
starts_with [] (p ∷ prefix) = false
starts_with (c ∷ t) (p ∷ prefix) = nat_eq c p && starts_with t prefix
