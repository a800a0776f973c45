-- ===== src/Transcript/Answers.antt =====
-- The texts that a run's events stream end up, whole and in order, under their own message id
-- (django_ag_ui/agent/run_transcript.py).
use django_ag_ui.Base.{
  String, Text, List, Bool, true, false, [], ◌∷◌, ◌++◌, ◌==◌, ◌≡◌, refl, sym, ap, ◌∙◌, ap₂, join,
  append-nil, append_assoc, if◌then◌else◌, Bool-cases, Option-cases, Option, none, some, subst, inl,
  inr,
}
use django_ag_ui.Outcome.{fields_or_empty, stamp_outcome}
use django_ag_ui.Base.Dict.{lookup}
use django_ag_ui.Wire.{
  Value, null, str, other, Event, text_start, text_content, call_end, call_args, call_result,
  ToolResult, Body, assistant, tool, user,
}
use django_ag_ui.Transcript.{
  changed, found_or_new, on_args, on_end, parent_or, RunTranscript, Draft, Item, draft, result,
  change_last, draft_for, add_text, add_call, item_messages, all_messages, messages, add, observe,
  tool_message, stamped_if, init, PendingCall,
}
use django_ag_ui.Transcript.Said.{
  body_text, answer_text, delta_of, deltas, answer_text-append, message_answer, join-append, said,
  said-append, draft_for-said,
}

abbrev IsTool : Body → Type 0
IsTool (tool call content) = Unit
IsTool b = ⊥

-- The results among the items are tool messages.
abbrev ResultsAreTools : List Item → Type 0
ResultsAreTools [] = Unit
ResultsAreTools (draft d ∷ is) = ResultsAreTools is
ResultsAreTools (result m ∷ is) = IsTool m.body × ResultsAreTools is

tool_text : (b : Body) → IsTool b → body_text b ≡ []
tool_text (tool call content) h = refl
tool_text (assistant content calls) h = absurd h
tool_text (user c) h = refl
tool_text _ h = refl

same_either : (b : Bool) (t : Text) → (if b then [] else []) ++ t ≡ t
same_either true t = refl
same_either false t = refl

answer_text-said :
    (k : String) (is : List Item) → ResultsAreTools is → answer_text k (all_messages is) ≡ said k is
answer_text-said k [] h = refl
answer_text-said k (draft d ∷ is) h =
    answer_text-append k (item_messages (draft d)) (all_messages is)
    ∙ ap₂ ◌++◌ (message_answer k d (join d.text) d.tool_calls) (answer_text-said k is h)
answer_text-said k (result m ∷ is) h =
    rw (tool_text m.body h.0, answer_text-said k is h.1) (same_either (m.id == k) (said k is))

tools-append :
    (xs ys : List Item) → ResultsAreTools xs → ResultsAreTools ys → ResultsAreTools (xs ++ ys)
tools-append [] ys h g = g
tools-append (draft d ∷ xs) ys h g = tools-append xs ys h g
tools-append (result m ∷ xs) ys h g = (h.0, tools-append xs ys h.1 g)

module _ (j : String) (f : Draft → Draft) where
  abbrev ToolsOf : Option (List Item) → Type 0
  ToolsOf none = Unit
  ToolsOf (some is) = ResultsAreTools is

  changed_tools :
      (i : Item) (is : List Item) (o : Option (List Item))
      → ResultsAreTools (i ∷ is)
      → ToolsOf o
      → ToolsOf (changed j f i is o)
  changed_tools (draft d) is (some is') h g = g
  changed_tools (result m) is (some is') h g = (h.0, g)
  changed_tools (result m) is none h g = tt
  changed_tools (draft d) is none h g = elim (Bool-cases (d.message_id == j)) [
    | inl e ↦ rw e h
    | inr e ↦ rw e tt
  ]

  change_last_tools : (is : List Item) → ResultsAreTools is → ToolsOf (change_last j f is)
  unfolding change_last
  change_last_tools [] h = tt
  change_last_tools (draft d ∷ is) h =
      changed_tools (draft d) is (change_last j f is) h (change_last_tools is h)
  change_last_tools (result m ∷ is) h =
      changed_tools (result m) is (change_last j f is) h (change_last_tools is h.1)

  found_tools :
      (is : List Item) (o : Option (List Item))
      → ResultsAreTools is
      → ToolsOf o
      → ResultsAreTools (found_or_new j f is o)
  found_tools is none h g = tools-append is _ h tt
  found_tools is (some is') h g = g

  draft_for_tools : (is : List Item) → ResultsAreTools is → ResultsAreTools (draft_for j f is)
  unfolding draft_for
  draft_for_tools is h = found_tools is (change_last j f is) h (change_last_tools is h)

-- What a change of the items adds to the text of an id.
abbrev Grows : String → List Item → List Item → Text → Type 0
Grows k is is' delta =
    (said k is' ≡ said k is ++ delta) × (ResultsAreTools is → ResultsAreTools is')

abbrev Grew : String → RunTranscript → Option RunTranscript → Text → Type 0
Grew k t none delta = Unit
Grew k t (some t') delta = Grows k t.items t'.items delta

grown_by :
    (k j : String) (f : Draft → Draft) (delta : Text)
    → ((d : Draft) → (f d).message_id ≡ d.message_id)
    → ((d : Draft) → join (f d).text ≡ join d.text ++ delta)
    → (is : List Item) → Grows k is (draft_for j f is) (if j == k then delta else [])
grown_by k j f delta same_id grows is =
    (draft_for-said k j f delta same_id grows is, draft_for_tools j f is)

unchanged : (k : String) (is : List Item) → Grows k is is []
unchanged k is = (sym (append-nil _), λ h. h)

no_gain :
    (k j : String) (is is' : List Item)
    → Grows k is is' (if j == k then [] else [])
    → Grows k is is' []
no_gain k j is is' h = (h.0 ∙ ap (λ t. said k is ++ t) (none_either (j == k)), h.1)
  where
    none_either : (b : Bool) → ◌≡◌ {A = Text} (if b then [] else []) []
    none_either true = refl
    none_either false = refl

tool_message-IsTool : (r : ToolResult) → IsTool (tool_message r).body
unfolding tool_message stamp_outcome
tool_message-IsTool r = go (lookup "outcome" (fields_or_empty r.metadata))
  where
    go :
        (o : Option Value)
        → IsTool
            (stamped_if o (record {
              id = r.message_id;
              body = tool r.tool_call_id r.content;
              metadata = none;
              extra = [];
            })).body
    go none = tt
    go (some null) = tt
    go (some (str x)) = tt
    go (some (other x)) = tt

args_Grew :
    (k : String) (t : RunTranscript) (c : String) (d : Text) (p : Option PendingCall)
    → Grew k t (on_args t c d p) []
unfolding on_args
args_Grew k t c d none = tt
args_Grew k t c d (some p) = unchanged k t.items

end_Grew :
    (k : String) (t : RunTranscript) (c : String) (p : Option PendingCall)
    → Grew k t (on_end t c p) []
unfolding on_end
end_Grew k t c none = tt
end_Grew k t c (some p) =
    no_gain k (parent_or p.parent_message_id c) t.items (draft_for _ (add_call _) t.items) (
      grown_by k (parent_or p.parent_message_id c) (add_call _) [] (λ d. refl)
        (λ d. sym (append-nil _)) t.items)

add-Grew : (k : String) (t : RunTranscript) (e : Event) → Grew k t (add t e) (delta_of k e)
unfolding add
add-Grew k t (text_start j) =
    no_gain k j t.items (draft_for j (λ d. d) t.items)
      (grown_by k j (λ d. d) [] (λ d. refl) (λ d. sym (append-nil _)) t.items)
add-Grew k t (text_content j delta) =
    grown_by k j (add_text delta) delta (λ d. refl)
      (λ d. join-append d.text (delta ∷ []) ∙ ap (λ s. join d.text ++ s) (append-nil delta)) t.items
add-Grew k t (call_args c d) = args_Grew k t c d (lookup c t.pending_calls)
add-Grew k t (call_end c) = end_Grew k t c (lookup c t.pending_calls)
add-Grew k t (call_result r) = (
  said-append k t.items (result (tool_message r) ∷ []),
  λ h. tools-append t.items _ h (tool_message-IsTool r, tt),
)
add-Grew k t _ = unchanged k t.items

then_Grew :
    (k : String) (t t' : RunTranscript) (o : Option RunTranscript) (first rest : Text)
    → Grows k t.items t'.items first
    → Grew k t' o rest
    → Grew k t o (first ++ rest)
then_Grew k t t' none first rest g h = tt
then_Grew k t t' (some u) first rest g h = (simp (h.0, g.0, append_assoc), λ x. h.1 (g.1 x))

observe-Grew :
    (k : String) (t : RunTranscript) (es : List Event) → Grew k t (observe t es) (deltas k es)
unfolding observe
observe-Grew k t [] = unchanged k t.items
observe-Grew k t (e ∷ es) = elim (Option-cases (add t e)) [
  | inl h ↦ rw (h, observe) tt
  | inr (t', h) ↦
      rw (h, observe)
        (then_Grew k t t' (observe t' es) (delta_of k e) (deltas k es)
          (subst (λ o. Grew k t o (delta_of k e)) h (add-Grew k t e)) (observe-Grew k t' es))
]

-- The messages rebuilt from any stream that raises nothing hold, under every id, exactly the text
-- streamed for that id: all of it, in the order streamed, and no other text.
pub answer_text-observe :
    (k : String) (es : List Event) (t : RunTranscript)
    → observe init es ≡ some t
    → answer_text k (messages t) ≡ deltas k es
unfolding messages init
answer_text-observe k es t e =
    let g : Grew k init (some t) (deltas k es) =
      subst (λ o. Grew k init o (deltas k es)) e (observe-Grew k init es) in
    answer_text-said k t.items (g.1 tt) ∙ g.0
