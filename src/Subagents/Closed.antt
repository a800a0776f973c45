-- ===== src/Subagents/Closed.antt =====
-- That a delegation that was reported as started is reported as ended, however it ends
-- (django_ag_ui/agent/subagent_observer.py).
use django_ag_ui.Base.{
  String, Text, List, Bool, true, false, none, some, inl, inr, codes, or_else, ap₂, [], ◌∷◌, ◌++◌,
  ◌==◌, ◌⊎◌, ◌≡◌, refl, sym, ap, ◌∙◌, append_assoc, append-nil, if◌then◌else◌,
}
use django_ag_ui.Subagents.{
  Delegation, started, Report, run_started, run_finished, run_error, progress, tool_call,
  tool_result, other_event, Context, subagent_lifecycle, put_nowait, emit, ChildEvent, reports_of,
  emit_all, forward_as, forward_child_events, Call, Executed, phase_of, delegation_of, closed,
  delegated, wrap_tool_execute,
}

-- What is reported of a child's events.
abbrev progress_of : Delegation → List ChildEvent → List Report
unfolding reports_of
progress_of d [] = []
progress_of d (e ∷ es) = reports_of d e ++ progress_of d es

emit_all_lem :
    (rs q : List Report) (c : Context) → c.sink ≡ some q → (emit_all rs c).sink ≡ some (q ++ rs)
emit_all_lem [] q c h = h ∙ ap (λ l. some l) (sym (append-nil q))
emit_all_lem (r ∷ rs) q c h =
    emit_all_lem rs (q ++ r ∷ []) (emit r c) (ap (put_nowait r) h)
    ∙ ap (λ l. some l) (append_assoc q (r ∷ []) rs)

forward_as_lem :
    (d : Delegation) (es : List ChildEvent) (q : List Report) (c : Context)
    → c.sink ≡ some q
    → (forward_as (some d) es c).sink ≡ some (q ++ progress_of d es)
unfolding forward_as progress_of
forward_as_lem d [] q c h = h ∙ ap (λ l. some l) (sym (append-nil q))
forward_as_lem d (e ∷ es) q c h =
    forward_as_lem d es (q ++ reports_of d e) (emit_all (reports_of d e) c)
      (emit_all_lem (reports_of d e) q c h)
    ∙ ap (λ l. some l) (append_assoc q (reports_of d e) (progress_of d es))

-- What the client is told of one event of a child, and of all of them.
abbrev pub told : Text → Text → ChildEvent → List Report
told id agent (tool_call call tool) =
    progress id agent "tool_call" (agent ++ codes ": calling " ++ tool) call tool none ∷ []
told id agent (tool_result call tool false false) =
    progress id agent "tool_result" (agent ++ codes ": " ++ tool ++ codes " " ++ codes "returned")
      call tool (some true)
    ∷ []
told id agent (tool_result call tool _ _) =
    progress id agent "tool_result" (agent ++ codes ": " ++ tool ++ codes " " ++ codes "failed")
      call tool (some false)
    ∷ []
told id agent other_event = []

abbrev all_told : Text → Text → List ChildEvent → List Report
all_told id agent [] = []
all_told id agent (e ∷ es) = told id agent e ++ all_told id agent es

told_lem : (d : Delegation) (e : ChildEvent) → reports_of d e ≡ told d.delegation_id d.agent e
unfolding reports_of
told_lem d (tool_call call tool) = refl
told_lem d (tool_result call tool false false) = refl
told_lem d (tool_result call tool false true) = refl
told_lem d (tool_result call tool true retried) = refl
told_lem d other_event = refl

all_told_lem :
    (d : Delegation) (es : List ChildEvent) → progress_of d es ≡ all_told d.delegation_id d.agent es
unfolding progress_of
all_told_lem d [] = refl
all_told_lem d (e ∷ es) = ap₂ (λ x y. x ++ y) (told_lem d e) (all_told_lem d es)

module _ {Result Error : Type 0} where
  -- A child's run: its events are forwarded, and it returns or raises.
  unfoldable pub child_run : List ChildEvent → Error ⊎ Result → Context → Executed Result Error
  unfolding forward_child_events
  child_run es outcome c = (outcome, forward_child_events es c)

  abbrev ClosesAs :
      List Report
      → Call
      → List ChildEvent
      → Error ⊎ Result
      → Context
      → Executed Result Error
      → Type 0
  ClosesAs q call es outcome c r =
      let d = delegation_of call in
      (r.1.sink
        ≡ some (
            q
            ++ (subagent_lifecycle d started
                ∷ (progress_of d es ++ subagent_lifecycle d (phase_of outcome) ∷ []))))
      × (r.0 ≡ outcome)
      × (r.1.delegation ≡ c.delegation)

  delegated-ClosesAs :
      (q : List Report) (call : Call) (es : List ChildEvent) (outcome : Error ⊎ Result)
      (c : Context)
      → c.sink ≡ some q
      → ClosesAs q call es outcome c (delegated call (child_run es outcome) c)
  unfolding delegated closed child_run forward_child_events
  delegated-ClosesAs q call es outcome c h =
      let d = delegation_of call in
      let start = subagent_lifecycle d started in
      let close = subagent_lifecycle d (phase_of outcome) in
      let f : (forward_as (some d) es (emit start (record c { delegation = some d }))).sink
          ≡ some ((q ++ start ∷ []) ++ progress_of d es) =
        forward_as_lem d es (q ++ start ∷ []) (emit start (record c { delegation = some d }))
          (ap (put_nowait start) h) in
      (
        ap (put_nowait close) f
            ∙ ap (λ l. some l)
                (append_assoc (q ++ start ∷ []) (progress_of d es) (close ∷ [])
                  ∙ append_assoc q (start ∷ []) (progress_of d es ++ close ∷ [])),
        refl,
        refl,
      )

  wrapped-ClosesAs :
      (b : Bool) (q : List Report) (call : Call) (es : List ChildEvent) (outcome : Error ⊎ Result)
      (c : Context)
      → b ≡ true
      → c.sink ≡ some q
      → ClosesAs q call es outcome c
          (if b then delegated call (child_run es outcome) c else child_run es outcome c)
  wrapped-ClosesAs true q call es outcome c e h = delegated-ClosesAs q call es outcome c h
  wrapped-ClosesAs false q call es outcome c e h = cc e

  -- How the end of a child's run is told.
  abbrev end_told : Text → Text → Error ⊎ Result → Report
  end_told id agent (inl error) = run_error (codes "subagent-" ++ id) (agent ++ codes " failed")
  end_told id agent (inr result) = run_finished (codes "subagent-" ++ id)

  end_told_lem :
      (d : Delegation) (outcome : Error ⊎ Result)
      → subagent_lifecycle d (phase_of outcome) ≡ end_told d.delegation_id d.agent outcome
  unfolding subagent_lifecycle
  end_told_lem d (inl error) = refl
  end_told_lem d (inr result) = refl

  -- The delegation's id is the id of the call, and its agent the one that the call names.
  abbrev pub Closes :
      List Report
      → Call
      → List ChildEvent
      → Error ⊎ Result
      → Context
      → Executed Result Error
      → Type 0
  Closes q call es outcome c r =
      let id = call.tool_call_id in
      let agent = or_else call.agent_name [] in
      (r.1.sink
        ≡ some (
            q
            ++ (run_started (codes "subagent-" ++ id) agent id
                ∷ (all_told id agent es ++ end_told id agent outcome ∷ []))))
      × (r.0 ≡ outcome)
      × (r.1.delegation ≡ c.delegation)

  told-Closes :
      (q : List Report) (call : Call) (es : List ChildEvent) (outcome : Error ⊎ Result)
      (c : Context) (r : Executed Result Error)
      → ClosesAs q call es outcome c r
      → Closes q call es outcome c r
  unfolding subagent_lifecycle
  told-Closes q call es outcome c r h =
      let d = delegation_of call in
      let start = subagent_lifecycle d started in
      (
        h.0
            ∙ ap₂ (λ ps x. some (q ++ (start ∷ (ps ++ x ∷ [])))) (all_told_lem d es)
                (end_told_lem d outcome),
        h.1,
        h.2,
      )

  -- A delegated call, however its child's run ends, is reported as started, with the id of the call
  -- as the id of the delegation; then comes, in order and under that id, the call and the result of
  -- each tool that the child calls, a result as returned unless it is a retry; and last a run that
  -- returned is reported as finished and one that raised as failed. The call comes to what the
  -- child's run comes to and leaves the delegation as it was before.
  pub wrap_tool_execute-Closes :
      (q : List Report) (tool_name : String) (call : Call) (es : List ChildEvent)
      (outcome : Error ⊎ Result) (c : Context)
      → (call.tool_name == tool_name) ≡ true
      → c.sink ≡ some q
      → Closes q call es outcome c (wrap_tool_execute tool_name call (child_run es outcome) c)
  unfolding wrap_tool_execute
  wrap_tool_execute-Closes q tool_name call es outcome c e h =
      told-Closes q call es outcome c _
        (wrapped-ClosesAs (call.tool_name == tool_name) q call es outcome c e h)
