-- ===== src/Outcome.antt =====
-- django_ag_ui/agent/stamp_outcome.py and the outcome of django_ag_ui/agent/outcome_agui_adapter.py:
-- how a tool call went, on the live event and on the stored message.
pub mod Stamped
mod Tests
use django_ag_ui.Base.{String, List, Option, none, some, [], ◌∷◌, ◌==◌, if◌then◌else◌}
use django_ag_ui.Base.Dict.{Dict, lookup, insert}
use django_ag_ui.Wire.{Value, str, Fields, Body, Message, tool, ToolResult, Event, call_result}

-- `metadata or {}`
abbrev pub fields_or_empty : Option Fields → Fields
fields_or_empty none = []
fields_or_empty (some m) = m

-- `stamp_outcome` on a stored message.
unfoldable pub stamp_outcome : Message → Value → Message
unfolding insert
stamp_outcome m outcome = record m {
  metadata = some (insert "outcome" outcome (fields_or_empty m.metadata));
  extra = insert "outcome" outcome m.extra;
}

-- `stamp_outcome` on a live `TOOL_CALL_RESULT`.
unfoldable stamp_result : ToolResult → Value → ToolResult
unfolding insert
stamp_result e outcome = record e {
  metadata = some (insert "outcome" outcome (fields_or_empty e.metadata));
  extra = insert "outcome" outcome e.extra;
}

-- The parts of a model message that answer a tool call, and the others.
data ModelPart : Type 0 where
  tool_return : String → String → ModelPart
  native_return : String → String → ModelPart
  retry_prompt : String → ModelPart
  other_part : ModelPart

-- `_forwardable_outcome` of a return part's `outcome`.
abbrev forwardable : String → Option String
forwardable outcome =
    if outcome == "retried" then none else if outcome == "success" then none else some outcome

-- `_forwardable_outcome`
unfoldable forwardable_outcome : ModelPart → Option String
forwardable_outcome (retry_prompt call) = none
forwardable_outcome (tool_return call outcome) = forwardable outcome
forwardable_outcome (native_return call outcome) = forwardable outcome
forwardable_outcome other_part = none

abbrev put_outcome : String → Option String → Dict String → Dict String
put_outcome call none outcomes = outcomes
put_outcome call (some o) outcomes = insert call o outcomes

abbrev one_outcome : Dict String → ModelPart → Dict String
one_outcome outcomes (tool_return call outcome) =
    put_outcome call (forwardable_outcome (tool_return call outcome)) outcomes
one_outcome outcomes p = outcomes

-- `_outcomes_by_call`: both loops, over the parts of all the messages in order.
unfoldable outcomes_by_call : Dict String → List ModelPart → Dict String
unfolding forwardable_outcome insert
outcomes_by_call outcomes [] = outcomes
outcomes_by_call outcomes (p ∷ ps) = outcomes_by_call (one_outcome outcomes p) ps

abbrev stamped : Message → Option String → Message
stamped m none = m
stamped m (some o) = stamp_outcome m (str o)

abbrev stored : Message → Body → Dict String → Message
stored m (tool call content) outcomes = stamped m (lookup call outcomes)
stored m b outcomes = m

-- `_with_stored_outcome`
unfoldable with_stored_outcome : Dict String → Message → Message
unfolding stamp_outcome lookup
with_stored_outcome outcomes m = stored m m.body outcomes

abbrev stamp_event : String → Event → Event
stamp_event o (call_result e) = call_result (stamp_result e (str o))
stamp_event o e = e

-- `_with_outcome`: the events of one handler, each tool result stamped.
unfoldable with_outcome : Option String → List Event → List Event
unfolding stamp_result
with_outcome o [] = []
with_outcome none (e ∷ es) = e ∷ with_outcome none es
with_outcome (some o) (e ∷ es) = stamp_event o e ∷ with_outcome (some o) es
