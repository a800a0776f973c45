-- ===== src/Transcript/StreamedIds.antt =====
-- django_ag_ui/agent/run_transcript.py, `with_streamed_ids`: the dump of a run, each message under the id the stream
-- announced for it.
pub mod Queued
pub mod Announced
pub mod Lending
use django_ag_ui.Base.{
  String, Text, List, Option, Bool, true, false, none, some, [], ◌∷◌, ◌++◌, ◌==◌, ◌&&◌, map, join,
  is_empty, text_eq, without_newlines, length, nat_eq, if◌then◌else◌,
}
use django_ag_ui.Base.Dict.{Dict, lookup, insert, remove, update}
use django_ag_ui.Wire.{
  Fields, same_fields, ToolCall, Body, Message, assistant, tool, reasoning, activity,
}
use django_ag_ui.Relabel.{relabel}
use django_ag_ui.Transcript.{Draft, Activity, Item, draft, result, RunTranscript}

-- `_same_text`
unfoldable pub same_text : Text → Option Text → Bool
same_text streamed none = text_eq (without_newlines streamed) []
same_text streamed (some dumped) = text_eq (without_newlines streamed) (without_newlines dumped)

-- `_same_content`
unfoldable pub same_content : Option Fields → Fields → Bool
unfolding same_fields remove
same_content none dumped = false
same_content (some streamed) dumped = same_fields streamed (remove "canonical_system" dumped)

module _ {A B : Type 0} (same : A → B → Bool) where
  -- `all(same(...) for ... in zip(...))`
  unfoldable pub all_same : List (String × A) → List B → Bool
  all_same ((k, a) ∷ streamed) (b ∷ dumped) = same a b && all_same streamed dumped
  all_same _ _ = true

abbrev pub ids_of {ℓ} : {A : Type ℓ} → List (String × A) → List String
ids_of [] = []
ids_of ((k, a) ∷ l) = k ∷ ids_of l

-- `_by_position`: an iterator is the list of what it still yields.
unfoldable pub by_position :
    {A B : Type 0} → List (String × A) → List B → (A → B → Bool) → List String
unfolding all_same
by_position streamed dumped same =
    if nat_eq (length streamed) (length dumped)
    then (if all_same same streamed dumped then ids_of streamed else [])
    else []

-- A non-empty `tool_calls`.
abbrev pub calls_of : Option (List ToolCall) → List ToolCall
calls_of none = []
calls_of (some cs) = cs

-- `_is_text_draft`, with the pair the comprehension builds.
abbrev pub text_drafts : List Item → List (String × Text)
text_drafts [] = []
text_drafts (result m ∷ is) = text_drafts is
text_drafts (draft d ∷ is) =
    if is_empty d.tool_calls then (d.message_id, join d.text) ∷ text_drafts is else text_drafts is

-- `_is_text_answer`, with the content.
abbrev text_answer : Body → List (Option Text)
text_answer (assistant content calls) = if is_empty (calls_of calls) then content ∷ [] else []
text_answer b = []

abbrev pub text_answers : List Message → List (Option Text)
text_answers [] = []
text_answers (m ∷ ms) = text_answer m.body ++ text_answers ms

abbrev reasoning_text : Body → List (Option Text)
reasoning_text (reasoning content) = some content ∷ []
reasoning_text b = []

abbrev pub reasoning_texts : List Message → List (Option Text)
reasoning_texts [] = []
reasoning_texts (m ∷ ms) = reasoning_text m.body ++ reasoning_texts ms

abbrev pub joined : Dict (List Text) → List (String × Text)
joined [] = []
joined ((k, deltas) ∷ d) = (k, join deltas) ∷ joined d

abbrev queue_result : Dict (List String) → String → Body → Dict (List String)
queue_result queues k (tool call content) = update call [] (λ q. q ++ k ∷ []) queues
queue_result queues k b = queues

-- `results`: each call's result ids, in order.
unfoldable pub results_of : Dict (List String) → List Item → Dict (List String)
unfolding update
results_of queues [] = queues
results_of queues (draft d ∷ is) = results_of queues is
results_of queues (result m ∷ is) = results_of (queue_result queues m.id m.body) is

-- `parents`: each call's parents, in order.
unfoldable pub parents_of :
    Dict (List (Option String)) → List (String × Option String) → Dict (List (Option String))
unfolding update
parents_of queues [] = queues
parents_of queues ((call, parent) ∷ ps) =
    parents_of (update call [] (λ q. q ++ parent ∷ []) queues) ps

-- `drafts`: each draft's text; of two drafts with one id the later.
unfoldable pub drafts_of : Dict Text → List Item → Dict Text
unfolding insert
drafts_of texts [] = texts
drafts_of texts (result m ∷ is) = drafts_of texts is
drafts_of texts (draft d ∷ is) = drafts_of (insert d.message_id (join d.text) texts) is

abbrev pub of_type : String → Dict Activity → List (String × Option Fields)
of_type type [] = []
of_type type ((k, a) ∷ d) =
    if a.activity_type == type then (k, a.content) ∷ of_type type d else of_type type d

abbrev group_activity : Dict (List Fields) → Body → Dict (List Fields)
group_activity dumped (activity type content) = update type [] (λ cs. cs ++ content ∷ []) dumped
group_activity dumped b = dumped

unfoldable pub dumped_activities : Dict (List Fields) → List Message → Dict (List Fields)
unfolding update
dumped_activities dumped [] = dumped
dumped_activities dumped (m ∷ ms) = dumped_activities (group_activity dumped m.body) ms

unfoldable pub paired_by_type : Dict Activity → Dict (List Fields) → Dict (List String)
unfolding by_position same_content
paired_by_type held [] = []
paired_by_type held ((type, contents) ∷ d) =
    (type, by_position (of_type type held) contents same_content) ∷ paired_by_type held d

-- `_activities_by_type`
unfoldable pub activities_by_type : RunTranscript → List Message → Dict (List String)
unfolding paired_by_type dumped_activities
activities_by_type t ms = paired_by_type t.activities (dumped_activities [] ms)

abbrev taken_from :
    {A : Type 0} → Dict (List A) → String → Option (List A) → Option A × Dict (List A)
taken_from queues k (some (x ∷ q)) = (some x, insert k q queues)
taken_from queues k _ = (none, queues)

-- `_take`: the value and the queues without it; `none` once there is none.
unfoldable pub take_queued : {A : Type 0} → Dict (List A) → String → Option A × Dict (List A)
unfolding lookup insert
take_queued queues k = taken_from queues k (lookup k queues)

abbrev or_absent : {A : Type 0} → Option (Option A) → Option A
or_absent none = none
or_absent (some o) = o

-- The values the set comprehension of `_shared_parent` takes, one for each call.
unfoldable pub taken_parents :
    Dict (List (Option String)) → List ToolCall → List (Option String) × Dict (List (Option String))
unfolding take_queued
taken_parents queues [] = ([], queues)
taken_parents queues (c ∷ cs) =
    let first = take_queued queues c.id in
    let rest = taken_parents first.1 cs in (or_absent first.0 ∷ rest.0, rest.1)

abbrev pub same_parent : Option String → Option String → Bool
same_parent none none = true
same_parent (some a) (some b) = a == b
same_parent _ _ = false

abbrev pub all_are : Option String → List (Option String) → Bool
all_are p [] = true
all_are p (q ∷ qs) = same_parent p q && all_are p qs

-- `_shared_parent` of the values taken: the one member of their set, if it has one.
unfoldable pub shared_parent : List (Option String) → Option String
shared_parent [] = none
shared_parent (p ∷ ps) = if all_are p ps then p else none

abbrev pub text_or_empty : Option Text → Text
text_or_empty none = []
text_or_empty (some t) = t

abbrev pub holding : Dict Text → Option Text → Option String → Option String
holding drafts content none = none
holding drafts content (some parent) =
    if same_text (text_or_empty (lookup parent drafts)) content then some parent else none

-- `_parent_holding`
unfoldable pub parent_holding :
    Dict (List (Option String))
    → List ToolCall
    → Dict Text
    → Option Text
    → Option String × Dict (List (Option String))
unfolding taken_parents shared_parent same_text lookup
parent_holding parents calls drafts content =
    let found = taken_parents parents calls in
    (holding drafts content (shared_parent found.0), found.1)

-- What the loop of `with_streamed_ids` consumes.
pub record Queues : Type 0 where
  pub results : Dict (List String)
  pub parents : Dict (List (Option String))
  pub drafts : Dict Text
  pub texts : List String
  pub reasonings : List String
  pub activities : Dict (List String)

-- `next(iterator, None)`
abbrev pub next_of {ℓ} : {A : Type ℓ} → List A → Option A
next_of [] = none
next_of (x ∷ xs) = some x

abbrev pub rest_of {ℓ} : {A : Type ℓ} → List A → List A
rest_of [] = []
rest_of (x ∷ xs) = xs

abbrev choose_assistant : Queues → Option Text → List ToolCall → Option String × Queues
choose_assistant q content [] = (next_of q.texts, record q { texts = rest_of q.texts })
choose_assistant q content (c ∷ cs) =
    let held = parent_holding q.parents (c ∷ cs) q.drafts content in
    (held.0, record q { parents = held.1 })

abbrev choose_body : Queues → Body → Option String × Queues
choose_body q (tool call content) =
    let next = take_queued q.results call in (next.0, record q { results = next.1 })
choose_body q (assistant content calls) = choose_assistant q content (calls_of calls)
choose_body q (reasoning content) =
    (next_of q.reasonings, record q { reasonings = rest_of q.reasonings })
choose_body q (activity type content) =
    let next = take_queued q.activities type in (next.0, record q { activities = next.1 })
choose_body q b = (none, q)

-- The branches of the loop: the streamed id of a message, and what is left.
unfoldable pub choose : Queues → Message → Option String × Queues
unfolding take_queued parent_holding
choose q m = choose_body q m.body

-- The tables built before the loop.
unfoldable pub queues : RunTranscript → List Message → Queues
unfolding results_of parents_of drafts_of by_position same_text activities_by_type
queues t ms = record {
  results = results_of [] t.items;
  parents = parents_of [] t.call_parents;
  drafts = drafts_of [] t.items;
  texts = by_position (text_drafts t.items) (text_answers ms) same_text;
  reasonings = by_position (joined t.reasoning) (reasoning_texts ms) same_text;
  activities = activities_by_type t ms;
}

-- `with_streamed_ids`; `claimed` is what the loop has lent.
unfoldable pub with_streamed_ids : RunTranscript → List Message → List Message
unfolding choose queues
with_streamed_ids t ms = relabel choose (λ x. false) (queues t ms) [] ms
