-- ===== src/Base/Spaces.antt =====
-- Python's `str.strip`, `str.rstrip` and `str.split` without arguments, on code points.
use Prim.Native.Nat.{ℕ, suc, ◌≤◌}
use mathlib.Core.Bool.{Bool, true, false, ◌||◌, ◌&&◌}
use mathlib.Core.List.{List, [], ◌∷◌, ◌++◌}
use mathlib.Core.Path.{◌≡◌, refl}
use native.Mathlib.Omega.{arith}
use django_ag_ui.Base.Tests.{nat_eq, leb, if◌then◌else◌}
use django_ag_ui.Base.Texts.{Text}
use django_ag_ui.Base.Lists.{length}

-- `str.isspace` of one character.
unfoldable pub is_space : ℕ → Bool
is_space c =
    (leb 9 c && leb c 13)
    || (leb 28 c && leb c 32)
    || nat_eq c 133
    || nat_eq c 160
    || nat_eq c 5760
    || (leb 8192 c && leb c 8202)
    || nat_eq c 8232
    || nat_eq c 8233
    || nat_eq c 8239
    || nat_eq c 8287
    || nat_eq c 12288

abbrev pub lstrip : Text → Text
unfolding is_space
lstrip [] = []
lstrip (c ∷ s) = if is_space c then lstrip s else c ∷ s

abbrev pub cons_unless : Bool → ℕ → Text → Text
cons_unless true c [] = []
cons_unless true c (d ∷ s) = c ∷ d ∷ s
cons_unless false c s = c ∷ s

-- `s.rstrip()`
unfoldable pub rstrip : Text → Text
unfolding is_space
rstrip [] = []
rstrip (c ∷ s) = cons_unless (is_space c) c (rstrip s)

-- `s.strip()`
unfoldable pub strip : Text → Text
unfolding lstrip rstrip
strip s = rstrip (lstrip s)

abbrev pub word_first : Text → List Text → List Text
word_first [] ws = ws
word_first (c ∷ w) ws = (c ∷ w) ∷ ws

abbrev pub with_char : Bool → ℕ → Text × List Text → Text × List Text
with_char true c p = ([], word_first p.0 p.1)
with_char false c p = (c ∷ p.0, p.1)

-- The first word, as far as the text starts with it, and the words after it.
unfoldable pub split_at_spaces : Text → Text × List Text
unfolding is_space
split_at_spaces [] = ([], [])
split_at_spaces (c ∷ s) = with_char (is_space c) c (split_at_spaces s)

-- `s.split()`
unfoldable pub words : Text → List Text
unfolding split_at_spaces
words s = let p = split_at_spaces s in word_first p.0 p.1

-- `" ".join(ws)`
abbrev pub join_words : List Text → Text
join_words [] = []
join_words (w ∷ []) = w
join_words (w ∷ v ∷ ws) = w ++ 32 ∷ join_words (v ∷ ws)

-- A text that ends with no white space.
abbrev pub EndsSolid : Text → Type 0
EndsSolid [] = Unit
EndsSolid (c ∷ []) = is_space c ≡ false
EndsSolid (c ∷ d ∷ s) = EndsSolid (d ∷ s)

ends_lem :
    (b : Bool) (c : ℕ) (s : Text) → is_space c ≡ b → EndsSolid s → EndsSolid (cons_unless b c s)
ends_lem true c [] e h = tt
ends_lem true c (d ∷ s) e h = h
ends_lem false c [] e h = e
ends_lem false c (d ∷ s) e h = h

pub rstrip-EndsSolid : (s : Text) → EndsSolid (rstrip s)
unfolding rstrip
rstrip-EndsSolid [] = tt
rstrip-EndsSolid (c ∷ s) = ends_lem (is_space c) c (rstrip s) refl (rstrip-EndsSolid s)

length-cons_unless : (b : Bool) (c : ℕ) (s : Text) → length (cons_unless b c s) ≤ suc (length s)
length-cons_unless true c [] = omega arith
length-cons_unless true c (d ∷ s) = omega arith
length-cons_unless false c s = omega arith

pub length-rstrip : (s : Text) → length (rstrip s) ≤ length s
unfolding rstrip
length-rstrip [] = omega arith
length-rstrip (c ∷ s) = omega (arith, length-cons_unless (is_space c) c (rstrip s), length-rstrip s)
