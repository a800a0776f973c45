-- ===== src/Subagents.antt =====
-- django_ag_ui/agent/subagent_observer.py with subagent_lifecycle.py and subagent_progress.py: what
-- is reported of a delegated run while its tool call runs. Times are left out.
pub mod Closed
mod Tests
use django_ag_ui.Base.{
  String, Text, List, Option, Bool, true, false, none, some, [], ◌∷◌, ◌++◌, ◌==◌, ◌⊎◌, inl, inr,
  or_else, codes, if◌then◌else◌,
}

-- `_Delegation`
pub record Delegation : Type 0 where
  delegation_id : Text
  pub agent : Text

pub data Phase : Type 0 where
  started : Phase
  finished : Phase
  failed : Phase

-- The three lifecycle events and the `CustomEvent` of the progress, whose `ok` is `none` for a
-- call.
pub data Report : Type 0 where
  run_started : Text → Text → Text → Report
  run_finished : Text → Report
  run_error : Text → Text → Report
  progress : Text → Text → String → Text → Text → Text → Option Bool → Report

-- The two context variables: `SUBAGENT_SINK`, whose queue is unbounded, and `_DELEGATION`.
pub record Context : Type 0 where
  pub sink : Option (List Report)
  pub delegation : Option Delegation

-- `subagent_run_id`
abbrev subagent_run_id : Text → Text
subagent_run_id delegation_id = codes "subagent-" ++ delegation_id

-- `subagent_lifecycle`
unfoldable pub subagent_lifecycle : Delegation → Phase → Report
subagent_lifecycle d started = run_started (subagent_run_id d.delegation_id) d.agent d.delegation_id
subagent_lifecycle d finished = run_finished (subagent_run_id d.delegation_id)
subagent_lifecycle d failed =
    run_error (subagent_run_id d.delegation_id) (d.agent ++ codes " failed")

abbrev pub put_nowait : Report → Option (List Report) → Option (List Report)
put_nowait r none = none
put_nowait r (some queue) = some (queue ++ r ∷ [])

-- `_emit`
abbrev pub emit : Report → Context → Context
emit r c = record c { sink = put_nowait r c.sink }

-- The events of a child's run: a call with its id and tool, a result with whether it is a retry
-- prompt and whether its outcome is `"retried"`, and all others.
pub data ChildEvent : Type 0 where
  tool_call : Text → Text → ChildEvent
  tool_result : Text → Text → Bool → Bool → ChildEvent
  other_event : ChildEvent

abbrev is_ok : Bool → Bool → Bool
is_ok false false = true
is_ok retry retried = false

abbrev outcome_of : Bool → Text
outcome_of true = codes "returned"
outcome_of false = codes "failed"

-- What is reported of one event; nothing of the others.
unfoldable pub reports_of : Delegation → ChildEvent → List Report
reports_of d (tool_call call tool) =
    progress d.delegation_id d.agent "tool_call" (d.agent ++ codes ": calling " ++ tool) call tool
      none
    ∷ []
reports_of d (tool_result call tool retry retried) =
    let ok = is_ok retry retried in
    progress d.delegation_id d.agent "tool_result"
      (d.agent ++ codes ": " ++ tool ++ codes " " ++ outcome_of ok) call tool (some ok)
    ∷ []
reports_of d other_event = []

abbrev pub emit_all : List Report → Context → Context
emit_all [] c = c
emit_all (r ∷ rs) c = emit_all rs (emit r c)

abbrev pub reported : Option Delegation → ChildEvent → Context → Context
unfolding reports_of
reported none e c = c
reported (some d) e c = emit_all (reports_of d e) c

abbrev pub forward_as : Option Delegation → List ChildEvent → Context → Context
unfolding reported
forward_as d [] c = c
forward_as d (e ∷ es) c = forward_as d es (reported d e c)

-- `_forward_child_events`: the delegation is read once, before the loop.
unfoldable pub forward_child_events : List ChildEvent → Context → Context
unfolding forward_as
forward_child_events es c = forward_as c.delegation es c

-- `call.tool_name`, `call.tool_call_id` and `args.get("agent_name")`
pub record Call : Type 0 where
  pub tool_name : String
  pub tool_call_id : Text
  pub agent_name : Option Text

abbrev pub delegation_of : Call → Delegation
delegation_of call = record {
  delegation_id = call.tool_call_id;
  agent = or_else call.agent_name [];
}

-- What a tool call comes to: it raises or returns.
abbrev pub Executed : Type 0 → Type 0 → Type 0
Executed Result Error = (Error ⊎ Result) × Context

module _ {Result Error : Type 0} where
  abbrev pub phase_of : Error ⊎ Result → Phase
  phase_of (inl error) = failed
  phase_of (inr result) = finished

  -- The end of a delegated call: the report of how it ended, and `_DELEGATION.reset`.
  abbrev pub closed : Option Delegation → Delegation → Executed Result Error → Executed Result Error
  unfolding subagent_lifecycle
  closed before d r =
      (r.0, record (emit (subagent_lifecycle d (phase_of r.0)) r.1) { delegation = before })

  abbrev pub delegated : Call → (Context → Executed Result Error) → Context → Executed Result Error
  unfolding closed
  delegated call handler c =
      let d = delegation_of call in
      closed c.delegation d
        (handler (emit (subagent_lifecycle d started) (record c { delegation = some d })))

  -- `wrap_tool_execute`
  unfoldable pub wrap_tool_execute :
      String → Call → (Context → Executed Result Error) → Context → Executed Result Error
  unfolding delegated
  wrap_tool_execute delegate_tool_name call handler c =
      if call.tool_name == delegate_tool_name then delegated call handler c else handler c
