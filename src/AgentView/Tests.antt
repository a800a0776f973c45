-- ===== src/AgentView/Tests.antt =====
-- One view of django_ag_ui/agent/agui_view.py with a run to resume, and one set of tools.
use django_ag_ui.Base.{
  ℕ, suc, true, false, none, some, [], ◌∷◌, inr, if◌then◌else◌, ◌==◌, ◌≡◌, refl,
}
use django_ag_ui.Http.{Method}
use django_ag_ui.AgentView.{
  RunInput, Request, Loaded, View, StepReads, ConversationReads, Session, Response, call, throttled,
  load_resume_history, source_messages,
}
use django_ag_ui.AgentView.Guards.{Admitted, call-Admitted, charged, call_charges}
use django_ag_ui.AgentView.ToolNames.{Tools}

abbrev thread_input : RunInput
thread_input = record { thread_id = "t1"; run_id = "r2" }

-- The world counts the runs; run "r1" belongs to thread "t1", and every thread exists.
abbrev steps : StepReads ℕ ℕ
steps = record {
  continue_run = λ request run w. if run == "r1" then some 5 else none;
  get_run = λ request run w. some (some "t1");
}

abbrev rows : ConversationReads ℕ ℕ
rows = record { load = λ request thread w. Loaded.found 1; exists = λ request thread w. true }

abbrev view : View ℕ ℕ ℕ
view = record {
  authorize = λ request w. none;
  throttle = some (λ request w. (none, suc w));
  build_run_input = λ body. inr thread_input;
  step_store = some steps;
  conversation_store = some rows;
  messages_from_jsonable = λ row. some [];
}

abbrev resume_post : Request
resume_post = record { method = Method.post; body = [] }

abbrev resumed_session : Session ℕ
resumed_session = record {
  run_input = thread_input;
  message_history = some 5;
  source_messages = some [];
}

resumes : call view resume_post (some "r1") 0 ≡ (Response.stream resumed_session, 1)
unfolding call throttled load_resume_history source_messages
resumes = refl

call-Admitted_example : Admitted view resume_post (some "r1") 0 1 resumed_session
call-Admitted_example = call-Admitted view resume_post (some "r1") 0 1 resumed_session resumes

call_charges_example :
    (call view resume_post (some "r1") 0).1
    ≡ charged view resume_post (view.authorize resume_post 0) resume_post.method 0
call_charges_example = call_charges view resume_post (some "r1") 0

abbrev tools : Tools
tools = record {
  registry = "search" ∷ [];
  mcp_server = some ("search" ∷ "order" ∷ []);
  service_specs = some ("order" ∷ "ship" ∷ []);
  spec_capability = false;
  attachments = true;
  toolsets = some ("weather" ∷ []);
  capabilities = none;
  client_context = true;
}
