-- ===== src/Transcript/StreamedIds/Announced.antt =====
-- Which ids `with_streamed_ids` of django_ag_ui/agent/run_transcript.py may lend to a message.
use django_ag_ui.Base.{
  String, Text, List, Option, Bool, true, some, [], ◌∷◌, ◌≡◌, refl, subst, inl, inr, arith,
  Bool-cases, In, All, and_left, and_right, length, nat_eq,
}
use django_ag_ui.Base.Dict.{lookup}
use django_ag_ui.Wire.{ToolCall, Body, assistant, tool, reasoning, activity}
use django_ag_ui.Transcript.{RunTranscript}
use django_ag_ui.Transcript.StreamedIds.{
  all_same, by_position, same_text, same_content, calls_of, ids_of, text_drafts, joined, drafts_of,
  of_type, next_of, rest_of, text_or_empty,
}
use django_ag_ui.Transcript.StreamedIds.Queued.{result_ids, parents_under}

-- Something streamed under `x` is the same, by the test, as what was dumped.
abbrev pub Matches : {A B : Type 0} → (A → B → Bool) → List (String × A) → B → String → Type 0
Matches {A} same streamed dumped x = (a : A) × In (x, a) streamed × (same a dumped ≡ true)

-- Each id an iterator still yields matches the content it will be asked for.
abbrev pub Paired : {B : Type 0} → (B → String → Type 0) → List String → List B → Type 0
Paired P [] bs = Unit
Paired P (x ∷ xs) [] = ⊥
Paired P (x ∷ xs) (b ∷ bs) = P b x × Paired P xs bs

module _ {A B : Type 0} (same : A → B → Bool) where
  Paired-here :
      (all streamed : List (String × A)) (dumped : List B)
      → ((x : String) (a : A) → In (x, a) streamed → In (x, a) all)
      → nat_eq (length streamed) (length dumped) ≡ true
      → all_same same streamed dumped ≡ true
      → Paired (Matches same all) (ids_of streamed) dumped
  unfolding all_same
  Paired-here all [] dumped sub n e = tt
  Paired-here all ((x, a) ∷ streamed) [] sub n e = absurd (ground arith)
  Paired-here all ((x, a) ∷ streamed) (b ∷ dumped) sub n e = (
    (a, sub x a (inl refl), and_left _ _ e),
    Paired-here all streamed dumped (λ y c h. sub y c (inr h)) (ground arith) (and_right _ _ e),
  )

  -- What `_by_position` yields matches, place by place.
  pub by_position-Paired :
      (streamed : List (String × A)) (dumped : List B)
      → Paired (Matches same streamed) (by_position streamed dumped same) dumped
  unfolding by_position
  by_position-Paired streamed dumped =
      elim (Bool-cases (nat_eq (length streamed) (length dumped))) [
        | inr e ↦ rw e tt
        | inl e ↦ elim (Bool-cases (all_same same streamed dumped)) [
          | inr f ↦ rw (e, f) tt
          | inl f ↦ rw (e, f) (Paired-here streamed streamed dumped (λ x a h. h) e f)
        ]
      ]

module _ {B : Type 0} (P : B → String → Type 0) where
  pub Paired-next :
      (xs : List String) (b : B) (bs : List B) (x : String)
      → Paired P xs (b ∷ bs)
      → next_of xs ≡ some x
      → P b x
  Paired-next [] b bs x h e = cc
  Paired-next (y ∷ xs) b bs x h e = subst (P b) (cc) h.0

  pub Paired-rest :
      (xs : List String) (b : B) (bs : List B) → Paired P xs (b ∷ bs) → Paired P (rest_of xs) bs
  Paired-rest [] b bs h = tt
  Paired-rest (y ∷ xs) b bs h = h.1

-- The text the stream gave the assistant message of an id.
abbrev streamed_text : RunTranscript → String → Text
streamed_text t x = text_or_empty (lookup x (drafts_of [] t.items))

abbrev pub AnnouncedAnswer : RunTranscript → Option Text → List ToolCall → String → Type 0
AnnouncedAnswer t content [] x = Matches same_text (text_drafts t.items) content x
AnnouncedAnswer t content (c ∷ cs) x =
    All (λ d. In (some x) (parents_under d.id t.call_parents)) (c ∷ cs)
    × (same_text (streamed_text t x) content ≡ true)

-- The stream announced the id for this very message.
abbrev pub Announced : RunTranscript → Body → String → Type 0
Announced t (tool call content) x = In x (result_ids call t.items)
Announced t (assistant content calls) x = AnnouncedAnswer t content (calls_of calls) x
Announced t (reasoning content) x = Matches same_text (joined t.reasoning) (some content) x
Announced t (activity type content) x = Matches same_content (of_type type t.activities) content x
Announced t b x = ⊥
