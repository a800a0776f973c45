-- ===== src/Base/Words.antt =====
-- A text's words, and the text that joins them.
use Prim.Native.Nat.{ℕ}
use mathlib.Core.Bool.{Bool, true, false}
use mathlib.Core.List.{List, [], ◌∷◌, ◌++◌, append-nil}
use mathlib.Core.Path.{◌≡◌, refl, ap, sym, ◌∙◌}
use django_ag_ui.Base.Texts.{Text}
use django_ag_ui.Base.Lists.{All}
use django_ag_ui.Base.Spaces.{is_space, word_first, with_char, split_at_spaces, words, join_words}

-- No white space in it.
abbrev Solid : Text → Type 0
Solid w = All (λ c. is_space c ≡ false) w

abbrev Word : Text → Type 0
Word [] = ⊥
Word (c ∷ w) = Solid (c ∷ w)

word_first-Word : (w : Text) (ws : List Text) → Solid w → All Word ws → All Word (word_first w ws)
word_first-Word [] ws s h = h
word_first-Word (c ∷ w) ws s h = (s, h)

with_char-Word :
    (b : Bool) (c : ℕ) (p : Text × List Text)
    → is_space c ≡ b
    → Solid p.0
    → All Word p.1
    → Solid (with_char b c p).0 × All Word (with_char b c p).1
with_char-Word true c p e s h = (tt, word_first-Word p.0 p.1 s h)
with_char-Word false c p e s h = ((e, s), h)

split_at_spaces-Word : (s : Text) → Solid (split_at_spaces s).0 × All Word (split_at_spaces s).1
unfolding split_at_spaces
split_at_spaces-Word [] = (tt, tt)
split_at_spaces-Word (c ∷ s) =
    let r = split_at_spaces-Word s in with_char-Word (is_space c) c (split_at_spaces s) refl r.0 r.1

words-Word : (s : Text) → All Word (words s)
unfolding words
words-Word s =
    let r = split_at_spaces-Word s in
    word_first-Word (split_at_spaces s).0 (split_at_spaces s).1 r.0 r.1

split_at_spaces-append :
    (w s : Text)
    → Solid w
    → split_at_spaces (w ++ s) ≡ (w ++ (split_at_spaces s).0, (split_at_spaces s).1)
unfolding split_at_spaces
split_at_spaces-append [] s h = refl
split_at_spaces-append (c ∷ w) s h =
    ap (λ b. with_char b c (split_at_spaces (w ++ s))) h.0
    ∙ ap (with_char false c) (split_at_spaces-append w s h.1)

word_first_alone : (w : Text) (ws : List Text) → Word w → word_first (w ++ []) ws ≡ w ∷ ws
word_first_alone [] ws h = absurd h
word_first_alone (c ∷ w) ws h = ap (λ v. (c ∷ v) ∷ ws) (append-nil w)

Word-Solid : (w : Text) → Word w → Solid w
Word-Solid [] h = tt
Word-Solid (c ∷ w) h = h

words_of_joined : (ws : List Text) → All Word ws → words (join_words ws) ≡ ws
unfolding words split_at_spaces is_space
words_of_joined [] h = refl
words_of_joined (w ∷ []) h =
    ap (λ t. words t) (sym (append-nil w))
    ∙ ap (λ p. word_first p.0 p.1) (split_at_spaces-append w [] (Word-Solid w h.0))
    ∙ word_first_alone w [] h.0
words_of_joined (w ∷ v ∷ ws) h =
    ap (λ p. word_first p.0 p.1)
      (split_at_spaces-append w (32 ∷ join_words (v ∷ ws)) (Word-Solid w h.0))
    ∙ word_first_alone w (words (join_words (v ∷ ws))) h.0
    ∙ ap (λ us. w ∷ us) (words_of_joined (v ∷ ws) h.1)

-- Joining a text's words keeps them.
pub words-join_words : (s : Text) → words (join_words (words s)) ≡ words s
words-join_words s = words_of_joined (words s) (words-Word s)
