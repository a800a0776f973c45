-- ===== src/Runs/Preview.antt =====
-- What the preview of a run is (django_ag_ui/agent/runs_view.py).
use django_ag_ui.Base.{
  ℕ, ◌≤◌, Text, List, Option, Bool, true, false, none, some, [], ◌∷◌, ◌++◌, reverse, ◌≡◌, ◌↔◌, refl,
  sym, ap, ◌∙◌, subst, length, length-append, length-take, take, leb, leb→le, Bool-cases, arith,
  inl, inr,
}
use django_ag_ui.Base.Spaces.{rstrip, length-rstrip, split_at_spaces, words, join_words}
use django_ag_ui.Base.Words.{words-join_words}
use django_ag_ui.Runs.{
  Prompt, prompt_text, Part, Part.user_prompt, Part.tool_return, Part.other_part, shortened,
  one_line, answers_a_tool, Ended, Ended.ran_out, Ended.returned, ellipsis, unless_skipped,
  in_parts, or_next, in_messages, preview_of, preview,
}

abbrev kept_line : Bool → Option Text → List (Option Text) → List (Option Text)
kept_line true none rest = rest
kept_line answers p rest = p ∷ rest

-- What each user prompt of a message says, newest first, without the wordless ones where the
-- message answers a tool.
abbrev said_by : Bool → List Part → List (Option Text)
unfolding one_line
said_by answers [] = []
said_by answers (user_prompt content ∷ ps) =
    kept_line answers (one_line content) (said_by answers ps)
said_by answers (p ∷ ps) = said_by answers ps

-- What the user prompts of a history say, newest message first.
abbrev pub said : List (List Part) → List (Option Text)
unfolding said_by
said [] = []
said (m ∷ ms) = said_by (answers_a_tool m) (reverse m) ++ said ms

abbrev pub first_of : List (Option Text) → Option Text
first_of [] = none
first_of (p ∷ ps) = p

abbrev ended_by : List (Option Text) → Ended
ended_by [] = ran_out
ended_by (p ∷ ps) = returned p

unless_skipped_lem :
    (answers : Bool) (p : Option Text) (rest : List (Option Text))
    → unless_skipped answers p (ended_by rest) ≡ ended_by (kept_line answers p rest)
unless_skipped_lem true none rest = refl
unless_skipped_lem true (some t) rest = refl
unless_skipped_lem false p rest = refl

in_parts_lem :
    (answers : Bool) (ps : List Part) → in_parts answers ps ≡ ended_by (said_by answers ps)
unfolding in_parts
in_parts_lem answers [] = refl
in_parts_lem answers (user_prompt content ∷ ps) =
    ap (unless_skipped answers (one_line content)) (in_parts_lem answers ps)
    ∙ unless_skipped_lem answers (one_line content) (said_by answers ps)
in_parts_lem answers (tool_return ∷ ps) = in_parts_lem answers ps
in_parts_lem answers (other_part ∷ ps) = in_parts_lem answers ps

or_next_lem : (l r : List (Option Text)) → or_next (ended_by l) (ended_by r) ≡ ended_by (l ++ r)
or_next_lem [] r = refl
or_next_lem (p ∷ l) r = refl

in_messages_lem : (ms : List (List Part)) → in_messages ms ≡ ended_by (said ms)
unfolding in_messages
in_messages_lem [] = refl
in_messages_lem (m ∷ ms) =
    ap (λ e. or_next e (in_messages ms)) (in_parts_lem (answers_a_tool m) (reverse m))
    ∙ ap (or_next (ended_by (said_by (answers_a_tool m) (reverse m)))) (in_messages_lem ms)
    ∙ or_next_lem (said_by (answers_a_tool m) (reverse m)) (said ms)

preview_of-ended_by : (l : List (Option Text)) → preview_of (ended_by l) ≡ first_of l
preview_of-ended_by [] = refl
preview_of-ended_by (p ∷ l) = refl

-- The preview of a snapshot is what its newest user prompt says, where a prompt without words is
-- passed over exactly in the messages that answer a tool.
pub preview-eq-first_of : (ms : List (List Part)) → preview ms ≡ first_of (said (reverse ms))
unfolding preview
preview-eq-first_of ms =
    ap preview_of (in_messages_lem (reverse ms)) ∙ preview_of-ended_by (said (reverse ms))

-- What a line shows of the words of a prompt: all of them, or at most 101 characters.
abbrev pub Shows : List Text → Text → Type 0
Shows ws p = (1 ≤ length p) × (length p ≤ 101) × (length (join_words ws) ≤ 100 → words p ≡ ws)

too_long : {A : Type 0} (n : ℕ) → leb n 100 ≡ false → n ≤ 100 → A
too_long n t h = let clash : ⊥ = ground (arith, t, h) in absurd clash

shortened_lem :
    (s p : Text) (ws : List Text)
    → join_words ws ≡ s
    → words s ≡ ws
    → shortened s ≡ some p
    → Shows ws p
unfolding shortened
shortened_lem [] p ws j e h = cc h
shortened_lem (c ∷ s) p ws j e h = elim (Bool-cases (leb (length (c ∷ s)) 100)) [
  | inl t ↦
      let g : some (c ∷ s) ≡ some p = rw t at h in
      let q : c ∷ s ≡ p = cc g in
      let short = leb→le (length (c ∷ s)) 100 t in
      subst (Shows ws) q (omega arith, omega (arith, short), λ n. e)
  | inr t ↦
      let cut = rstrip (take 100 (c ∷ s)) in
      let g : some (cut ++ ellipsis) ≡ some p = rw t at h in
      let q : cut ++ ellipsis ≡ p = cc g in
      let size = length-append cut ellipsis in
      let bound = length-rstrip (take 100 (c ∷ s)) in
      let taken = length-take 100 (c ∷ s) in
      subst (Shows ws) q (
        omega (arith, size),
        omega (arith, size, bound, taken),
        λ n. too_long (length (c ∷ s)) t (subst (λ z. length z ≤ 100) j n),
      )
]

none_if_blank : (s : Text) → shortened s ≡ none → s ≡ []
unfolding shortened
none_if_blank [] h = refl
none_if_blank (c ∷ s) h = elim (Bool-cases (leb (length (c ∷ s)) 100)) [
  | inl t ↦ let g : some (c ∷ s) ≡ none = rw t at h in cc g
  | inr t ↦ let g : some (rstrip (take 100 (c ∷ s)) ++ ellipsis) ≡ none = rw t at h in cc g
]

-- A line is shown for a prompt exactly if it has a word. It is not empty, it has at most 101
-- characters, and it has the very words of the prompt where they take at most 100.
pub one_line-Shows :
    (content : Prompt)
    → ((p : Text) → one_line content ≡ some p → Shows (words (prompt_text content)) p)
      × (one_line content ≡ none ↔ words (prompt_text content) ≡ [])
unfolding one_line shortened words split_at_spaces
one_line-Shows content =
    let ws = words (prompt_text content) in
    let whole = words-join_words (prompt_text content) in
    (
      λ p h. shortened_lem (join_words ws) p ws refl whole h,
      (
        λ h. sym whole ∙ ap words (none_if_blank (join_words ws) h),
        λ h. ap (λ z. shortened (join_words z)) h,
      ),
    )
