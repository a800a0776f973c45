-- ===== src/Context/Rendered.antt =====
-- What the rendered block holds between its markers
-- (django_ag_ui/agent/render_untrusted_context.py).
use django_ag_ui.Base.{
  ℕ, ◌+◌, ◌-◌, ◌≤◌, Text, List, Option, Bool, true, false, none, some, [], ◌∷◌, ◌++◌, ◌≡◌, refl,
  sym, length, take, length-take, ltb, leb, nat_eq, is_empty, codes, decimal, Digits,
  decimal-Digits, All, All-weaken, arith, if◌then◌else◌,
}
use django_ag_ui.Base.Spaces.{strip}
use django_ag_ui.Context.{
  fold, starts, neutralise, label_of, spaces_joined, ContextItem, Section, Sections, with_section,
  flagged, sections, section_text, sections_text, preamble, closing, newline, truncation_note,
  with_note, inside, enclosed, rendered, render_untrusted_context,
}
use django_ag_ui.Context.Sentinel.{
  NoMark, NoMark-take, NoMark-append, is_unmarked, is_unmarked-NoMark, NoMark-neutralise,
  NoMark-label_of,
}

-- The characters of the values.
abbrev pub value_chars : List Section → ℕ
value_chars [] = 0
value_chars (s ∷ ss) = length s.value + value_chars ss

abbrev Safe : Section → Type 0
Safe s = NoMark s.label × NoMark s.value × (length s.label ≤ 120)

label_bound : (l : Text) → length (label_of l) ≤ 120
unfolding label_of
label_bound l = omega (arith, length-take 120 (neutralise (strip (spaces_joined false l))))

-- The sections are safe and within what remains.
abbrev Within : ℕ → Sections → Type 0
Within n p = All Safe p.0 × (value_chars p.0 ≤ n)

chosen-Within :
    (b c d : Bool) (n : ℕ) (p q : Sections)
    → Within n p
    → Within n q
    → Within n (if b then p else (if c then ([], true) else flagged d q))
chosen-Within true c d n p q h g = h
chosen-Within false true d n p q h g = (tt, omega arith)
chosen-Within false false d n p q h g = g

sections-Within : (items : List ContextItem) (n : ℕ) → Within n (sections items n)
unfolding sections
sections-Within [] n = (tt, omega arith)
sections-Within (i ∷ items) n =
    let value = neutralise (strip i.value) in
    let rest = sections-Within items (n - length (take n value)) in
    chosen-Within (is_empty value) (leb n 0) (ltb n (length value)) n (sections items n)
      (with_section (record { label = label_of i.label; value = take n value })
        (sections items (n - length (take n value))))
      (sections-Within items n)
      (
        (
          (
            NoMark-label_of i.label,
            NoMark-take value n (NoMark-neutralise (strip i.value)),
            label_bound i.label,
          ),
          rest.0,
        ),
        omega (arith, rest.1, length-take n value),
      )

-- Joining safe pieces by a space or a line break.
spaced : (a b : Text) → NoMark a → NoMark b → NoMark (a ++ (32 ∷ b))
spaced a b h g = NoMark-append 32 a b refl h g

lined : (a b : Text) → NoMark a → NoMark b → NoMark (a ++ (10 ∷ b))
lined a b h g = NoMark-append 10 a b refl h g

-- A blank line between them.
parted : (a b : Text) → NoMark a → NoMark b → NoMark (a ++ (10 ∷ 10 ∷ b))
unfolding NoMark
parted a b h g = lined a (10 ∷ b) h (lined [] b tt g)

fixed : (s : Text) → is_unmarked s ≡ true → NoMark s
fixed s h = is_unmarked-NoMark s h

NoMark-section_text : (s : Section) → Safe s → NoMark (section_text s)
unfolding is_unmarked
NoMark-section_text s (h, g, l) =
    spaced (codes "description:") (s.label ++ (10 ∷ (codes "value:" ++ (10 ∷ s.value))))
      (fixed (codes "description:") refl)
      (lined s.label (codes "value:" ++ (10 ∷ s.value)) h
        (lined (codes "value:") s.value (fixed (codes "value:") refl) g))

NoMark-sections_text : (ss : List Section) → All Safe ss → NoMark (sections_text ss)
unfolding NoMark
NoMark-sections_text [] h = tt
NoMark-sections_text (s ∷ []) h = NoMark-section_text s h.0
NoMark-sections_text (s ∷ s' ∷ ss) h =
    parted (section_text s) (sections_text (s' ∷ ss)) (NoMark-section_text s h.0)
      (NoMark-sections_text (s' ∷ ss) h.1)

digit_fold : (c : ℕ) → ltb c 58 ≡ true → nat_eq (fold c) 117 ≡ false
digit_fold c h = ground (arith, h)

NoMark-Digits : (s : Text) → Digits s → NoMark s
unfolding starts NoMark
NoMark-Digits [] h = tt
NoMark-Digits (c ∷ s) h = (rw (digit_fold c h.0) refl, NoMark-Digits s h.1)

NoMark-with_note : (b : Bool) (n : ℕ) (t : Text) → NoMark t → NoMark (with_note b n t)
unfolding with_note truncation_note is_unmarked
NoMark-with_note false n t h = h
NoMark-with_note true n t h = parted t (truncation_note n) h (
    spaced (codes "[truncated: client context is capped at")
      (decimal n ++ (32 ∷ codes "characters]"))
      (fixed (codes "[truncated: client context is capped at") refl)
      (spaced (decimal n) (codes "characters]") (NoMark-Digits (decimal n) (decimal-Digits n))
        (fixed (codes "characters]") refl)))

NoMark-inside : (t : Text) → NoMark t → NoMark (inside t)
unfolding NoMark is_unmarked
NoMark-inside t h = lined [] (preamble ++ (10 ∷ 10 ∷ (t ++ (10 ∷ 10 ∷ (closing ++ newline))))) tt (
    parted preamble (t ++ (10 ∷ 10 ∷ (closing ++ newline))) (fixed preamble refl)
      (parted t (closing ++ newline) h (lined closing [] (fixed closing refl) tt)))

-- A block is two markers around a text in which no marker word stands, in any casing.
abbrev Fenced : Text → Type 0
Fenced t = (body : Text) × (t ≡ enclosed (inside body)) × NoMark (inside body)

rendered-Fenced :
    (p : Sections) (n : ℕ) (t : Text) → All Safe p.0 → rendered p n ≡ some t → Fenced t
unfolding rendered
rendered-Fenced ([], b) n t a h = cc h
rendered-Fenced (s ∷ ss, b) n t a h =
    let body = with_note b n (sections_text (s ∷ ss)) in
    let e : enclosed (inside body) ≡ t = cc h in
    (
      body,
      sym e,
      NoMark-inside body
          (NoMark-with_note b n (sections_text (s ∷ ss)) (NoMark-sections_text (s ∷ ss) a)),
    )

-- What holds of a block, if there is one.
abbrev pub FencedBlock : Option Text → Type 0
FencedBlock none = Unit
FencedBlock (some t) = Fenced t

fenced_block : (block : Option Text) → ((t : Text) → block ≡ some t → Fenced t) → FencedBlock block
fenced_block none h = tt
fenced_block (some t) h = h t refl

-- Whatever the client sends, the marker word stands in the rendered block, in whatever casing, only
-- in the opening marker at its start and in the closing marker at its end; the values shown have
-- together at most as many characters as the limit, and each label at most 120.
pub render_untrusted_context-Fenced :
    (items : List ContextItem) (max_chars : ℕ)
    → FencedBlock (render_untrusted_context items max_chars)
      × (value_chars (sections items max_chars).0 ≤ max_chars)
      × All (λ s. length s.label ≤ 120) (sections items max_chars).0
unfolding render_untrusted_context
render_untrusted_context-Fenced items max_chars =
    let w = sections-Within items max_chars in
    (
      fenced_block (render_untrusted_context items max_chars)
          (λ t h. rendered-Fenced (sections items max_chars) max_chars t w.0 h),
      w.1,
      All-weaken (sections items max_chars).0 (λ s h. h.2) w.0,
    )
