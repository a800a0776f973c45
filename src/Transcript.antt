-- ===== src/Transcript.antt =====
-- django_ag_ui/agent/run_transcript.py: the messages of a run, rebuilt from its event stream.
pub mod StreamedIds
pub mod Said
pub mod Answers
pub mod Calls
mod Tests
use django_ag_ui.Base.{
  String, Text, List, Option, Bool, true, false, none, some, [], ◌∷◌, ◌++◌, ◌==◌, join, is_empty,
  if◌then◌else◌,
}
use django_ag_ui.Base.Dict.{Dict, lookup, insert, remove, update}
use django_ag_ui.Outcome.{fields_or_empty, stamp_outcome}
use django_ag_ui.Wire.{
  null, Value, Fields, ToolCall, Body, Message, ToolResult, Event, assistant, tool, text_start,
  text_content, call_start, call_args, call_end, call_result, reasoning_start, reasoning_content,
  activity_snapshot, activity_delta, run_error,
}

-- `_Draft`: an assistant message under construction.
pub record Draft : Type 0 where
  pub message_id : String
  pub text : List Text
  pub tool_calls : List ToolCall

-- `_PendingCall`: a tool call whose arguments are still streaming.
pub record PendingCall : Type 0 where
  pub name : String
  pub parent_message_id : Option String
  pub args : List Text

-- `_Activity`: no content once a delta changed it.
pub record Activity : Type 0 where
  activity_type : String
  pub content : Option Fields

pub data Item : Type 0 where
  draft : Draft → Item
  result : Message → Item

-- The attributes of a `RunTranscript`.
pub record RunTranscript : Type 0 where
  pub items : List Item
  pub pending_calls : Dict PendingCall
  pub call_parents : List (String × Option String)
  pub reasoning : Dict (List Text)
  pub activities : Dict Activity

-- `__init__`
unfoldable pub init : RunTranscript
init = record { items = []; pending_calls = []; call_parents = []; reasoning = []; activities = [] }

abbrev pub names : String → Item → Bool
names k (draft d) = d.message_id == k
names k (result m) = false

abbrev on_draft : (Draft → Draft) → Item → Item
on_draft f (draft d) = draft (f d)
on_draft f (result m) = result m

abbrev changed :
    String → (Draft → Draft) → Item → List Item → Option (List Item) → Option (List Item)
changed k f i is (some is') = some (i ∷ is')
changed k f i is none = if names k i then some (on_draft f i ∷ is) else none

-- `reversed(self._items)` up to the first draft of that id, changed by `f`.
unfoldable pub change_last : String → (Draft → Draft) → List Item → Option (List Item)
change_last k f [] = none
change_last k f (i ∷ is) = changed k f i is (change_last k f is)

abbrev pub empty_draft : String → Draft
empty_draft k = record { message_id = k; text = []; tool_calls = [] }

abbrev found_or_new : String → (Draft → Draft) → List Item → Option (List Item) → List Item
found_or_new k f is none = is ++ draft (f (empty_draft k)) ∷ []
found_or_new k f is (some is') = is'

-- `_draft_for`, with what the caller then does to the draft it returns.
unfoldable pub draft_for : String → (Draft → Draft) → List Item → List Item
unfolding change_last
draft_for k f is = found_or_new k f is (change_last k f is)

abbrev pub add_text : Text → Draft → Draft
add_text t d = record d { text = d.text ++ t ∷ [] }

abbrev pub add_call : ToolCall → Draft → Draft
add_call c d = record d { tool_calls = d.tool_calls ++ c ∷ [] }

abbrev stamped_if : Option Value → Message → Message
stamped_if none m = m
stamped_if (some null) m = m
stamped_if (some outcome) m = stamp_outcome m outcome

-- `_tool_message`; an outcome of `None` is no outcome.
unfoldable pub tool_message : ToolResult → Message
unfolding stamp_outcome
tool_message e =
    let message : Message = record {
      id = e.message_id;
      body = tool e.tool_call_id e.content;
      metadata = none;
      extra = [];
    } in
    stamped_if (lookup "outcome" (fields_or_empty e.metadata)) message

abbrev pub parent_or : Option String → String → String
parent_or none call = call
parent_or (some p) call = if p == "" then call else p

abbrev pub add_args : Text → PendingCall → PendingCall
add_args t p = record p { args = p.args ++ t ∷ [] }

-- A `ToolCallArgsEvent`; `none` is the `KeyError` of a call that is not pending.
pub on_args : RunTranscript → String → Text → Option PendingCall → Option RunTranscript
on_args t call delta none = none
on_args t call delta (some p) =
    some (record t { pending_calls = insert call (add_args delta p) t.pending_calls })

-- A `ToolCallEndEvent`; `none` is the `KeyError` of `pop`.
pub on_end : RunTranscript → String → Option PendingCall → Option RunTranscript
on_end t call none = none
on_end t call (some p) = some (record t {
  pending_calls = remove call t.pending_calls;
  items =
      draft_for (parent_or p.parent_message_id call)
        (add_call (record { id = call; name = p.name; arguments = join p.args })) t.items;
})

abbrev take_content : Fields → Bool → Activity → Activity
take_content c replace a = if replace then record a { content = some c } else a

abbrev snapshot_into :
    Dict Activity → String → String → Fields → Bool → Option Activity → Dict Activity
snapshot_into d k type c replace none =
    insert k (record { activity_type = type; content = some c }) d
snapshot_into d k type c replace (some a) = insert k (take_content c replace a) d

-- `_snapshot`; the flag is `event.replace is not False`.
snapshot : RunTranscript → String → String → Fields → Bool → RunTranscript
snapshot t k type c replace = record t {
  activities = snapshot_into t.activities k type c replace (lookup k t.activities);
}

abbrev forget_content : Activity → Activity
forget_content a = record a { content = none }

-- `add`: one event; `none` is a `KeyError` it raises.
unfoldable pub add : RunTranscript → Event → Option RunTranscript
unfolding on_args on_end snapshot draft_for tool_message lookup insert remove update
add t (text_start k) = some (record t { items = draft_for k (λ d. d) t.items })
add t (text_content k delta) = some (record t { items = draft_for k (add_text delta) t.items })
add t (call_start call name parent) = some (record t {
  pending_calls =
      insert call (record { name = name; parent_message_id = parent; args = [] }) t.pending_calls;
  call_parents = t.call_parents ++ (call, parent) ∷ [];
})
add t (call_args call delta) = on_args t call delta (lookup call t.pending_calls)
add t (call_end call) = on_end t call (lookup call t.pending_calls)
add t (call_result e) = some (record t { items = t.items ++ result (tool_message e) ∷ [] })
add t (reasoning_start k) = some (record t { reasoning = update k [] (λ ds. ds) t.reasoning })
add t (reasoning_content k delta) =
    some (record t { reasoning = update k [] (λ ds. ds ++ delta ∷ []) t.reasoning })
add t (activity_snapshot k type c replace) = some (snapshot t k type c replace)
add t (activity_delta k type) = some (record t {
  activities =
      update k (record { activity_type = type; content = none }) forget_content t.activities;
})
add t _ = some t

-- `observe`: every event of the stream in turn, passed through unchanged.
unfoldable pub observe : RunTranscript → List Event → Option RunTranscript
observe t [] = some t
observe t (e ∷ es) = elim (add t e) [ none ↦ none | some t' ↦ observe t' es ]

abbrev none_if_empty {ℓ} : {A : Type ℓ} → List A → Option (List A)
none_if_empty [] = none
none_if_empty (x ∷ xs) = some (x ∷ xs)

abbrev message_of : Draft → Option Text → Option (List ToolCall) → List Message
message_of d none none = []
message_of d content calls =
    record { id = d.message_id; body = assistant content calls; metadata = none; extra = [] } ∷ []

-- One turn of the loop of `messages`.
abbrev pub item_messages : Item → List Message
item_messages (result m) = m ∷ []
item_messages (draft d) = message_of d (none_if_empty (join d.text)) (none_if_empty d.tool_calls)

abbrev all_messages : List Item → List Message
all_messages [] = []
all_messages (i ∷ is) = item_messages i ++ all_messages is

-- `messages`
unfoldable pub messages : RunTranscript → List Message
messages t = all_messages t.items
