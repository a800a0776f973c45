-- ===== src/Lib.antt =====
-- django-ag-ui, verified: a Django application that serves AG-UI agents. This library models the
-- parts of django_ag_ui/ that hold its own logic, and proves what makes them correct.
--
-- How the parts fit. A view takes a request and runs an agent, whose events pass through filters
-- to the client. A transcript records the events, so that the messages stored after the run carry
-- the ids the client has seen; on the next run the ids of the stored history are lent to the
-- history the client sent. The throttle bounds how many runs one client starts, and the step
-- store keeps the runs of several agents apart.
--
-- Base            Python's dict, str, int and list operations, and the automation used for them.
-- Wire            ag_ui.core as the code uses it: messages, bodies, events. A pydantic message is
--                 a record of its id, its body and its extra fields; equality of dumped content
--                 is `same_fields`, key by key.
-- Outcome         agent/stamp_outcome.py and agent/outcome_agui_adapter.py.
-- Relabel         The loop that agent/run_transcript.py and agent/lend_stored_ids.py share: each
--                 message in turn is given an id that is not taken yet, or keeps its own.
-- Transcript      agent/run_transcript.py: the class as a record `RunTranscript`, `add` for the
--                 body of `observe`, `messages`, `with_streamed_ids`. A `KeyError` is `none`.
-- StoredIds       agent/lend_stored_ids.py: `lend_stored_ids` with its cursors.
-- Throttle        agent/fixed_window_throttle.py: `consume` over a cache given as a record of
--                 operations with the laws Django documents for add and incr.
-- StepStore       persistence/scoped_step_store.py: every method of the scoped store over an inner
--                 store that is a parameter.
-- AgentView       agent/agui_view.py: `call` for `DjangoAGUIView.__call__` with its responses, and
--                 in AgentView/ToolNames the tools that a run is offered, by name, with those
--                 that agent/agent_session.py adds, and in AgentView/Models the model, the agent
--                 and what else a run is given.
-- Threads         persistence/threads_view.py: `with_activities`, and in Threads/Requests the
--                 view's requests over a conversation store whose operations may raise.
-- Runs            agent/runs_view.py: `call` over a step store, with `preview` and `one_line`.
-- Uploads         persistence/capped_upload_handler.py and attachments_view.py, and in
--                 Uploads/Transcribe persistence/transcribe_view.py.
-- Lockstep        agent/utils.py's pump and agent/heartbeat_stream.py as a step relation: `Step` has
--                 one constructor for each place where a task moves on.
-- Race            agent/inject_subagent_events.py with the pump of agent/utils.py: the pump, the
--                 getters, the announcing tasks and the consumer as a step relation; `turn` is the
--                 loop from its top to where the consumer next gives way.
-- Context         agent/render_untrusted_context.py: `render_untrusted_context` of the items that
--                 the client's context holds. A `max_chars` below 0 is 0. Context/Attachments has
--                 agent/attachment_context_items.py and build_untrusted_context.py.
-- History         agent/strip_binary_content.py and agent/continued_history.py, over what the adapter
--                 loads and dumps.
-- Session         agent/agent_session.py and reasoning_filter.py: `AgentSession` with what it saves
--                 on a completion, a failure and a cancellation, and `stream` for the events on
--                 their way to the client. A save that an anonymous caller makes raises, and is
--                 passed over.
-- Server          agent/agui_server.py with check_removed_settings.py and check_no_dotted_paths.py:
--                 `new_server` for the construction, which is refused or gives a server, and
--                 `build_patterns` for its routes.
-- Approval        agent/stamp_approval_prompts.py, over the prompts that Server merges.
-- Subagents       agent/subagent_observer.py, subagent_lifecycle.py and subagent_progress.py:
--                 `wrap_tool_execute` over the two context variables, as a state that is passed on.
-- Charts          agent/types/chart_spec.py, chart_limits.py and chart_points_delta.py: `validate` and
--                 `chart_points_delta`, which give the error they raise.
-- Config          config/build_ag_ui_config.py, config/types/ and conf.py: `build_ag_ui_config` of the
--                 arguments and the settings, which may raise.
-- Injectors       agent/inject_compaction_events.py and inject_invalidation_events.py with the sinks
--                 that agent/compaction_observer.py and publish_invalidation.py fill: `injected`.
-- Guard           agent/guarded_stream.py: `guarded_stream` over stages that may raise when closed.
-- Skills          skills/skill_registry.py and skills_view.py: `register`, `payload` and the view.
-- Http            Methods and responses, for the views.
--
-- Integers are unbounded, as in Python. The one fuel is that of `decimal`, which writes a number
-- with n + 1 rounds for n: each round drops a digit. Loops over lists are structural.
--
-- Not modelled: Django's request and response objects, pydantic-ai's adapter and event stream,
-- serialisation by pydantic, warnings, and the clocks of asyncio; the choice of a session's
-- instructions, the closing of a race whose reader goes away, and the content of activity snapshots.
pub mod Base
pub mod Wire
pub mod Http
pub mod Outcome
pub mod Relabel
pub mod Transcript
pub mod StoredIds
pub mod Throttle
pub mod StepStore
pub mod AgentView
pub mod Threads
pub mod Runs
pub mod Uploads
pub mod Lockstep
pub mod Context
pub mod History
pub mod Session
pub mod Server
pub mod Subagents
pub mod Approval
pub mod Charts
pub mod Race
pub mod Config
pub mod Injectors
pub mod Guard
pub mod Skills
