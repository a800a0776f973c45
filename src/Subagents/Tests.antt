-- ===== src/Subagents/Tests.antt =====
-- A delegated run that calls a tool and fails (django_ag_ui/agent/subagent_observer.py).
use django_ag_ui.Base.{Text, List, true, false, none, some, [], ◌∷◌, ◌≡◌, ◌⊎◌, refl, inl, codes}
use django_ag_ui.Subagents.{
  Call, ChildEvent, tool_call, tool_result, Context, run_started, run_error, progress,
  wrap_tool_execute, subagent_lifecycle, reports_of, forward_child_events,
}
use django_ag_ui.Subagents.Closed.{child_run, Closes, wrap_tool_execute-Closes}

abbrev call : Call
call = record {
  tool_name = "delegate";
  tool_call_id = codes "c1";
  agent_name = some (codes "clerk");
}

abbrev events : List ChildEvent
events =
    tool_call (codes "k1") (codes "find") ∷ tool_result (codes "k1") (codes "find") false true ∷ []

abbrev outcome : Text ⊎ Text
outcome = inl (codes "timeout")

abbrev context : Context
context = record { sink = some []; delegation = none }

abbrev after : Text ⊎ Text → Context
after o = (wrap_tool_execute "delegate" call (child_run events o) context).1

failed_run :
    (after outcome).sink
    ≡ some (
        run_started (codes "subagent-c1") (codes "clerk") (codes "c1")
        ∷ progress
            (codes "c1")
            (codes "clerk")
            "tool_call"
            (codes "clerk: calling find")
            (codes "k1")
            (codes "find")
            none
        ∷ progress
            (codes "c1")
            (codes "clerk")
            "tool_result"
            (codes "clerk: find failed")
            (codes "k1")
            (codes "find")
            (some false)
        ∷ run_error (codes "subagent-c1") (codes "clerk failed")
        ∷ [])
unfolding wrap_tool_execute child_run forward_child_events reports_of subagent_lifecycle
failed_run = refl

wrap_tool_execute-Closes_example :
    Closes [] call events outcome context
      (wrap_tool_execute "delegate" call (child_run events outcome) context)
wrap_tool_execute-Closes_example =
    wrap_tool_execute-Closes [] "delegate" call events outcome context refl refl
