-- ===== src/Context/Sentinel.antt =====
-- Texts in which the marker word of the client's block does not occur, in whatever casing
-- (django_ag_ui/agent/render_untrusted_context.py).
use django_ag_ui.Base.{
  ℕ, zero, suc, Text, Bool, true, false, [], ◌∷◌, ◌++◌, ◌||◌, ◌&&◌, not, ◌≡◌, inl, inr, refl, sym,
  ◌∙◌, nat_eq, codes, and_left, and_right, not_true→false, take, Bool-cases, arith,
}
use django_ag_ui.Base.Spaces.{strip}
use django_ag_ui.Context.{
  fold, sentinel, neutralised_sentinel, starts, substituted, neutralise, label_of, spaces_joined,
}

-- The marker word starts nowhere in the text.
unfoldable pub NoMark : Text → Type 0
unfolding starts
NoMark [] = Unit
NoMark (c ∷ s) = (starts sentinel (c ∷ s) ≡ false) × NoMark s

-- A prefix of a text is matched by what matches the text's prefix.
starts-take : (p s : Text) (n : ℕ) → starts p (take n s) ≡ true → starts p s ≡ true
unfolding starts
starts-take [] s n h = refl
starts-take (q ∷ p) s zero h = cc h
starts-take (q ∷ p) [] (suc n) h = cc h
starts-take (q ∷ p) (c ∷ s) (suc n) h = ground (arith, starts-take p s n)

not_true : (b b' : Bool) → (b ≡ true → b' ≡ true) → b' ≡ false → b ≡ false
not_true true b' f h = sym (f refl) ∙ h
not_true false b' f h = refl

pub NoMark-take : (s : Text) (n : ℕ) → NoMark s → NoMark (take n s)
unfolding NoMark
NoMark-take s zero h = tt
NoMark-take [] (suc n) h = tt
NoMark-take (c ∷ s) (suc n) h = (
  not_true (starts sentinel (c ∷ take n s)) (starts sentinel (c ∷ s))
      (starts-take sentinel (c ∷ s) (suc n)) h.0,
  NoMark-take s n h.1,
)

-- A character that no character of the pattern matches.
abbrev is_foreign : ℕ → Text → Bool
is_foreign x [] = true
is_foreign x (q ∷ p) = not (nat_eq (fold x) q) && is_foreign x p

starts_cons :
    (q c : ℕ) (p s : Text)
    → nat_eq (fold c) q ≡ true
    → starts p s ≡ true
    → starts (q ∷ p) (c ∷ s) ≡ true
unfolding starts
starts_cons q c p s h g = rw (h, g) refl

starts_before :
    (p a b : Text) (x : ℕ)
    → is_foreign x p ≡ true
    → starts p (a ++ (x ∷ b)) ≡ true
    → starts p a ≡ true
unfolding starts
starts_before [] a b x f h = refl
starts_before (q ∷ p) [] b x f h =
    let other =
      not_true→false (nat_eq (fold x) q) (and_left (not (nat_eq (fold x) q)) (is_foreign x p) f) in
    let clash : false ≡ true = sym other ∙ and_left (nat_eq (fold x) q) (starts p b) h in cc clash
starts_before (q ∷ p) (c ∷ a) b x f h =
    starts_cons q c p a (and_left (nat_eq (fold c) q) (starts p (a ++ (x ∷ b))) h) (
      starts_before p a b x (and_right (not (nat_eq (fold x) q)) (is_foreign x p) f)
        (and_right (nat_eq (fold c) q) (starts p (a ++ (x ∷ b))) h))

-- Two texts joined by a character that is foreign to the marker word.
pub NoMark-append :
    (x : ℕ) (a b : Text)
    → is_foreign x sentinel ≡ true
    → NoMark a
    → NoMark b
    → NoMark (a ++ (x ∷ b))
unfolding NoMark starts
NoMark-append x [] b f h g =
    (not_true (starts sentinel (x ∷ b)) false (starts_before sentinel [] b x f) refl, g)
NoMark-append x (c ∷ a) b f h g = (
  not_true (starts sentinel (c ∷ a ++ (x ∷ b))) (starts sentinel (c ∷ a))
      (starts_before sentinel (c ∷ a) b x f) h.0,
  NoMark-append x a b f h.1 g,
)

-- The pattern differs from the text before either ends.
abbrev differs : Text → Text → Bool
differs [] t = false
differs (q ∷ p) [] = false
differs (q ∷ p) (c ∷ t) = not (nat_eq (fold c) q) || differs p t

starts-differs : (p t r : Text) → differs p t ≡ true → starts p (t ++ r) ≡ false
unfolding starts
starts-differs [] t r h = cc h
starts-differs (q ∷ p) [] r h = cc h
starts-differs (q ∷ p) (c ∷ t) r h = ground (arith, starts-differs p t r)

-- No rest of a text can begin the marker word, whatever follows.
abbrev all_differ : Text → Bool
all_differ [] = true
all_differ (c ∷ t) = differs sentinel (c ∷ t) && all_differ t

NoMark-fixed : (t r : Text) → all_differ t ≡ true → NoMark r → NoMark (t ++ r)
unfolding NoMark
NoMark-fixed [] r h g = g
NoMark-fixed (c ∷ t) r h g = (
  starts-differs sentinel (c ∷ t) r (and_left (differs sentinel (c ∷ t)) (all_differ t) h),
  NoMark-fixed t r (and_right (differs sentinel (c ∷ t)) (all_differ t) h) g,
)

-- A closed text is checked by evaluation.
unfoldable pub is_unmarked : Text → Bool
unfolding starts
is_unmarked [] = true
is_unmarked (c ∷ s) = not (starts sentinel (c ∷ s)) && is_unmarked s

pub is_unmarked-NoMark : (s : Text) → is_unmarked s ≡ true → NoMark s
unfolding is_unmarked NoMark
is_unmarked-NoMark [] h = tt
is_unmarked-NoMark (c ∷ s) h = (
  not_true→false (starts sentinel (c ∷ s))
      (and_left (not (starts sentinel (c ∷ s))) (is_unmarked s) h),
  is_unmarked-NoMark s (and_right (not (starts sentinel (c ∷ s))) (is_unmarked s) h),
)

-- No rest of the pattern matches where a replacement begins.
abbrev rests_differ : Text → Bool
rests_differ [] = true
rests_differ (q ∷ p) = differs (q ∷ p) neutralised_sentinel && rests_differ p

-- What matches a rest of the marker word behind the substitution matched before it.
starts-substituted :
    (p s : Text) → rests_differ p ≡ true → starts p (substituted 0 s) ≡ true → starts p s ≡ true
unfolding starts substituted
starts-substituted [] s d h = refl
starts-substituted (q ∷ p) [] d h = cc h
starts-substituted (q ∷ p) (c ∷ s) d h = elim (Bool-cases (starts sentinel (c ∷ s))) [
  | inl b ↦
      let g : starts (q ∷ p) (neutralised_sentinel ++ substituted 23 s) ≡ true = rw b at h in
      let clash : false ≡ true =
        sym (
          starts-differs (q ∷ p) neutralised_sentinel (substituted 23 s)
            (and_left (differs (q ∷ p) neutralised_sentinel) (rests_differ p) d))
        ∙ g in
      cc clash
  | inr b ↦
      let g : (nat_eq (fold c) q && starts p (substituted 0 s)) ≡ true = rw b at h in
      starts_cons q c p s (and_left (nat_eq (fold c) q) (starts p (substituted 0 s)) g) (
        starts-substituted p s (and_right (differs (q ∷ p) neutralised_sentinel) (rests_differ p) d)
          (and_right (nat_eq (fold c) q) (starts p (substituted 0 s)) g))
]

starts_unmarked :
    (c : ℕ) (s : Text)
    → starts sentinel (c ∷ s) ≡ false
    → starts sentinel (c ∷ substituted 0 s) ≡ false
unfolding starts
starts_unmarked c s h =
    not_true (starts sentinel (c ∷ substituted 0 s)) (starts sentinel (c ∷ s))
      (λ g.
        starts_cons 117 c (codes "ntrusted-client-context") s
          (and_left (nat_eq (fold c) 117)
            (starts (codes "ntrusted-client-context") (substituted 0 s)) g)
          (starts-substituted (codes "ntrusted-client-context") s refl (
            and_right (nat_eq (fold c) 117)
              (starts (codes "ntrusted-client-context") (substituted 0 s)) g)))
      h

NoMark-substituted : (n : ℕ) (s : Text) → NoMark (substituted n s)
unfolding substituted NoMark
NoMark-substituted n [] = tt
NoMark-substituted (suc n) (c ∷ s) = NoMark-substituted n s
NoMark-substituted zero (c ∷ s) = elim (Bool-cases (starts sentinel (c ∷ s))) [
  | inl b ↦
      rw b (NoMark-fixed neutralised_sentinel (substituted 23 s) refl (NoMark-substituted 23 s))
  | inr b ↦ rw b (starts_unmarked c s b, NoMark-substituted 0 s)
]

pub NoMark-neutralise : (s : Text) → NoMark (neutralise s)
unfolding neutralise
NoMark-neutralise s = NoMark-substituted 0 s

pub NoMark-label_of : (s : Text) → NoMark (label_of s)
unfolding label_of
NoMark-label_of s =
    let joined = strip (spaces_joined false s) in
    NoMark-take (neutralise joined) 120 (NoMark-neutralise joined)
