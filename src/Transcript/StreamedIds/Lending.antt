-- ===== src/Transcript/StreamedIds/Lending.antt =====
-- The loop of `with_streamed_ids` of django_ag_ui/agent/run_transcript.py: what its queues hold
-- at each turn, and what it lends.
use django_ag_ui.Base.{
  String, Text, List, Option, true, false, none, some, [], ◌∷◌, ◌++◌, ◌==◌, ◌≡◌, refl, sym, subst,
  ◌∙◌, inl, inr, eq_iff, if◌then◌else◌, Bool-cases, In, All-weaken, eq_refl,
}
use django_ag_ui.Base.Dict.{Dict, lookup, or_nil}
use django_ag_ui.Wire.{Fields, ToolCall, Body, Message, assistant, tool, reasoning, activity}
use django_ag_ui.Relabel.{
  apply_ids, Fresh, Lent, grants, relabel-apply_ids, grants-Fresh, grants-Lent, Lent-weaken,
}
use django_ag_ui.Transcript.{RunTranscript}
use django_ag_ui.Transcript.StreamedIds.{
  by_position, same_text, same_content, calls_of, text_drafts, text_answers, reasoning_texts,
  joined, drafts_of, of_type, Queues, choose, queues, with_streamed_ids, text_or_empty, holding,
  choose_assistant, choose_body, take_queued, parent_holding, paired_by_type, activities_by_type,
  dumped_activities,
}
use django_ag_ui.Transcript.StreamedIds.Queued.{
  result_ids, parents_under, contents_of, or_nil-results_of, or_nil-parents_of,
  or_nil-dumped_activities, take_queued-next_of, take_queued-rest_of, In-next_of, In-take_queued,
  In-taken_parents, shared_parent-taken_parents,
}
use django_ag_ui.Transcript.StreamedIds.Announced.{
  Matches, Paired, by_position-Paired, Paired-next, Paired-rest, AnnouncedAnswer, Announced,
}

-- What holds of the queues before each turn of the loop.
record Inv (t : RunTranscript) (q : Queues) (ms : List Message) : Type 0 where
  results : (k x : String) → In x (or_nil (lookup k q.results)) → In x (result_ids k t.items)
  parents :
      (k : String) (p : Option String)
      → In p (or_nil (lookup k q.parents))
      → In p (parents_under k t.call_parents)
  drafts : q.drafts ≡ drafts_of [] t.items
  texts : Paired (Matches same_text (text_drafts t.items)) q.texts (text_answers ms)
  reasonings : Paired (Matches same_text (joined t.reasoning)) q.reasonings (reasoning_texts ms)
  activities :
      (k : String)
      → Paired
          (Matches same_content (of_type k t.activities))
          (or_nil (lookup k q.activities))
          (contents_of k ms)

abbrev paired_of : RunTranscript → String → Option (List Fields) → List String
paired_of t k none = []
paired_of t k (some contents) = by_position (of_type k t.activities) contents same_content

module _ (t : RunTranscript) where
  -- A queue that one kind of message consumes, seen from a message of that kind or of another.
  activities_step :
      (q : Queues) (type k : String) (content : Fields) (ms : List Message)
      → ((j : String)
          → Paired
              (Matches same_content (of_type j t.activities))
              (or_nil (lookup j q.activities))
              ((if type == j then content ∷ [] else []) ++ contents_of j ms))
      → Paired
          (Matches same_content (of_type k t.activities))
          (or_nil (lookup k (take_queued q.activities type).1))
          (contents_of k ms)
  activities_step q type k content ms h = elim (Bool-cases (type == k)) [
    | inr e ↦ rw (take_queued-rest_of q.activities type k, e) (rw e at (h k))
    | inl e ↦
        let same : type ≡ k = (eq_iff type k).0 e in
        rw (take_queued-rest_of q.activities type k, e)
          (rw same (
            Paired-rest (Matches same_content (of_type k t.activities)) _ content _
              (rw e at (h k))))
  ]

  assistant_keep :
      (q : Queues) (i : String) (content : Option Text) (calls : Option (List ToolCall))
      (cs : List ToolCall) (md : Option Fields) (ex : Fields) (ms : List Message)
      → calls_of calls ≡ cs
      → Inv t q (record { id = i; body = assistant content calls; metadata = md; extra = ex } ∷ ms)
      → Inv t (choose_assistant q content cs).1 ms
  unfolding parent_holding
  assistant_keep q i content calls [] md ex ms e h = record {
    results = h.results;
    parents = h.parents;
    drafts = h.drafts;
    texts =
        Paired-rest (Matches same_text (text_drafts t.items)) q.texts content (text_answers ms)
          (rw e at (h.texts));
    reasonings = h.reasonings;
    activities = h.activities;
  }
  assistant_keep q i content calls (c ∷ cs) md ex ms e h = record {
    results = h.results;
    parents = λ k p x. h.parents k p (In-taken_parents q.parents (c ∷ cs) k p x);
    drafts = h.drafts;
    texts = rw e at (h.texts);
    reasonings = h.reasonings;
    activities = h.activities;
  }

  body_keep :
      (q : Queues) (i : String) (b : Body) (md : Option Fields) (ex : Fields) (ms : List Message)
      → Inv t q (record { id = i; body = b; metadata = md; extra = ex } ∷ ms)
      → Inv t (choose_body q b).1 ms
  body_keep q i (tool call content) md ex ms h = record {
    results = λ k x m. h.results k x (In-take_queued q.results call k x m);
    parents = h.parents;
    drafts = h.drafts;
    texts = h.texts;
    reasonings = h.reasonings;
    activities = h.activities;
  }
  body_keep q i (assistant content calls) md ex ms h =
      assistant_keep q i content calls (calls_of calls) md ex ms refl h
  body_keep q i (reasoning content) md ex ms h = record {
    results = h.results;
    parents = h.parents;
    drafts = h.drafts;
    texts = h.texts;
    reasonings =
        Paired-rest (Matches same_text (joined t.reasoning)) q.reasonings (some content)
          (reasoning_texts ms) h.reasonings;
    activities = h.activities;
  }
  body_keep q i (activity type content) md ex ms h = record {
    results = h.results;
    parents = h.parents;
    drafts = h.drafts;
    texts = h.texts;
    reasonings = h.reasonings;
    activities = λ k. activities_step q type k content ms h.activities;
  }
  body_keep q i _ md ex ms h = record {
    results = h.results;
    parents = h.parents;
    drafts = h.drafts;
    texts = h.texts;
    reasonings = h.reasonings;
    activities = h.activities;
  }

  keep : (q : Queues) (m : Message) (ms : List Message) → Inv t q (m ∷ ms) → Inv t (choose q m).1 ms
  unfolding choose
  keep q m ms h = body_keep q m.id m.body m.metadata m.extra ms h

  holding_sound :
      (drafts : Dict Text) (content : Option Text) (o : Option String) (x : String)
      → holding drafts content o ≡ some x
      → (o ≡ some x) × (same_text (text_or_empty (lookup x drafts)) content ≡ true)
  holding_sound drafts content none x e = cc
  holding_sound drafts content (some p) x e =
      elim (Bool-cases (same_text (text_or_empty (lookup p drafts)) content)) [
        | inr f ↦ let gone : none ≡ some x = rw f at e in cc gone
        | inl f ↦
            let here : some p ≡ some x = rw f at e in
            let same : p ≡ x = cc here in
            (here, subst (λ y. same_text (text_or_empty (lookup y drafts)) content ≡ true) same f)
      ]

  assistant_sound :
      (q : Queues) (i : String) (content : Option Text) (calls : Option (List ToolCall))
      (cs : List ToolCall) (md : Option Fields) (ex : Fields) (ms : List Message) (x : String)
      → calls_of calls ≡ cs
      → Inv t q (record { id = i; body = assistant content calls; metadata = md; extra = ex } ∷ ms)
      → (choose_assistant q content cs).0 ≡ some x
      → AnnouncedAnswer t content cs x
  unfolding parent_holding
  assistant_sound q i content calls [] md ex ms x e h c =
      Paired-next (Matches same_text (text_drafts t.items)) q.texts content (text_answers ms) x
        (rw e at (h.texts)) c
  assistant_sound q i content calls (d ∷ ds) md ex ms x e h c =
      let both = holding_sound q.drafts content _ x c in
      (
        All-weaken (d ∷ ds) (λ call. h.parents call.id (some x))
            (shared_parent-taken_parents q.parents (d ∷ ds) x both.0),
        subst (λ drafts. same_text (text_or_empty (lookup x drafts)) content ≡ true) h.drafts
            both.1,
      )

  body_sound :
      (q : Queues) (i : String) (b : Body) (md : Option Fields) (ex : Fields) (ms : List Message)
      (x : String)
      → Inv t q (record { id = i; body = b; metadata = md; extra = ex } ∷ ms)
      → (choose_body q b).0 ≡ some x
      → Announced t b x
  body_sound q i (tool call content) md ex ms x h c =
      h.results call x (In-next_of x _ (sym (take_queued-next_of q.results call) ∙ c))
  body_sound q i (assistant content calls) md ex ms x h c =
      assistant_sound q i content calls (calls_of calls) md ex ms x refl h c
  body_sound q i (reasoning content) md ex ms x h c =
      Paired-next (Matches same_text (joined t.reasoning)) q.reasonings (some content)
        (reasoning_texts ms) x h.reasonings c
  body_sound q i (activity type content) md ex ms x h c =
      Paired-next (Matches same_content (of_type type t.activities)) _ content (contents_of type ms)
        x (rw eq_refl at (h.activities type)) (sym (take_queued-next_of q.activities type) ∙ c)
  body_sound q i _ md ex ms x h c = cc

  sound :
      (q : Queues) (m : Message) (ms : List Message) (x : String)
      → Inv t q (m ∷ ms)
      → (choose q m).0 ≡ some x
      → Announced t m.body x
  unfolding choose
  sound q m ms x h c = body_sound q m.id m.body m.metadata m.extra ms x h c

  paired_lookup :
      (k : String) (d : Dict (List Fields))
      → or_nil (lookup k (paired_by_type t.activities d)) ≡ paired_of t k (lookup k d)
  unfolding paired_by_type lookup
  paired_lookup k [] = refl
  paired_lookup k ((type, contents) ∷ d) = elim (Bool-cases (type == k)) [
    | inl e ↦ rw e (rw ((eq_iff type k).0 e))
    | inr e ↦ rw e (paired_lookup k d)
  ]

  paired_of-Paired :
      (k : String) (o : Option (List Fields))
      → Paired (Matches same_content (of_type k t.activities)) (paired_of t k o) (or_nil o)
  paired_of-Paired k none = tt
  paired_of-Paired k (some contents) =
      by_position-Paired same_content (of_type k t.activities) contents

  initial_activities :
      (k : String) (ms : List Message)
      → Paired
          (Matches same_content (of_type k t.activities))
          (or_nil (lookup k (paired_by_type t.activities (dumped_activities [] ms))))
          (contents_of k ms)
  unfolding lookup
  initial_activities k ms =
      subst (Paired (Matches same_content (of_type k t.activities)) _)
        (or_nil-dumped_activities k [] ms)
        (rw paired_lookup (paired_of-Paired k (lookup k (dumped_activities [] ms))))

  initial : (ms : List Message) → Inv t (queues t ms) ms
  unfolding queues activities_by_type lookup
  initial ms = record {
    results = λ k x h. rw (or_nil-results_of k [] t.items) at h;
    parents = λ k p h. rw (or_nil-parents_of k [] t.call_parents) at h;
    drafts = refl;
    texts = by_position-Paired same_text (text_drafts t.items) (text_answers ms);
    reasonings = by_position-Paired same_text (joined t.reasoning) (reasoning_texts ms);
    activities = λ k. initial_activities k ms;
  }

-- Whatever the run streamed and whatever was dumped, each message of the result is the dumped
-- message, under its own id or under an id that the stream announced for that very message: a
-- tool result's by its call, an answer's and a reasoning's whose streamed text is the dumped one
-- but for newlines, an activity's of the same type and content. No id is lent twice.
pub with_streamed_ids-Announced :
    (t : RunTranscript) (ms : List Message)
    → (gs : List (Option String)) × (with_streamed_ids t ms ≡ apply_ids gs ms)
      × Lent (λ m x. Announced t m.body x) ms gs
      × Fresh [] gs
unfolding with_streamed_ids
with_streamed_ids-Announced t ms = (
  grants choose (λ x. false) (queues t ms) [] ms,
  relabel-apply_ids choose (λ x. false) (queues t ms) [] ms,
  Lent-weaken ms _ (λ m x h. h.0)
      (grants-Lent choose (λ x. false) (Inv t) (λ m x. Announced t m.body x) (keep t) (sound t)
        (queues t ms) [] ms (initial t ms)),
  grants-Fresh choose (λ x. false) (queues t ms) [] ms,
)
