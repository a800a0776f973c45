-- ===== src/AgentView.antt =====
-- django_ag_ui/agent/agui_view.py: what a POST that starts a run passes through, and which tools
-- the run is given. The stores, the throttle and the parser of the body are parameters.
pub mod Guards
pub mod ToolNames
pub mod Names
pub mod Sources
pub mod Offered
pub mod Models
pub mod Reuse
mod ModelTests
mod Tests
use django_ag_ui.Base.{
  ℕ, String, Text, List, Option, Bool, true, false, none, some, [], ◌∷◌, ◌++◌, ◌==◌, ◌⊎◌, inl, inr,
  contains, if◌then◌else◌,
}
use django_ag_ui.Http.{Method}
use django_ag_ui.Wire.{Message}

-- The fields of `RunAgentInput` that the view reads.
pub record RunInput : Type 0 where
  pub thread_id : String
  pub run_id : String

pub record Request : Type 0 where
  pub method : Method
  pub body : Text

-- What `ConversationStore.load` gives: it raises for an anonymous caller, or finds a row or none.
pub data Loaded (Row : Type 0) : Type 0 where
  anonymous : Loaded Row
  missing : Loaded Row
  found : Row → Loaded Row

-- The collaborators of `DjangoAGUIView`. `continue_run` is `none` for a `LookupError`, `get_run`
-- gives the `conversation_id` of a run it finds, `build_run_input` the error count of a body that
-- does not validate, and `messages_from_jsonable` is `none` for a `ValidationError`.
pub record StepReads (World History : Type 0) : Type 0 where
  pub continue_run : Request → String → World → Option History
  pub get_run : Request → String → World → Option (Option String)

pub record ConversationReads (World Row : Type 0) : Type 0 where
  pub load : Request → String → World → Loaded Row
  pub exists : Request → String → World → Bool

-- `step_store` is optional; `conversation_store` is `none` for the `NullConversationStore`.
pub record View (World History Row : Type 0) : Type 0 where
  pub authorize : Request → World → Option ℕ
  pub throttle : Option (Request → World → Option ℕ × World)
  pub build_run_input : Text → ℕ ⊎ RunInput
  pub step_store : Option (StepReads World History)
  pub conversation_store : Option (ConversationReads World Row)
  pub messages_from_jsonable : Row → Option (List Message)

-- What `AgentSession` is given of the request.
pub record Session (History : Type 0) : Type 0 where
  pub run_input : RunInput
  pub message_history : Option History
  pub source_messages : Option (List Message)

-- The responses of `__call__`: 401 or 403, 405, 429, 400, 404, 409 and the stream.
pub data Response (History : Type 0) : Type 0 where
  auth_error : ℕ → Response History
  not_allowed : List Method → Response History
  rate_limited : ℕ → Response History
  invalid_input : ℕ → Response History
  no_resumable_run : String → Response History
  would_overwrite : String → String → Response History
  stream : Session History → Response History

module _ {World History Row : Type 0} (v : View World History Row) (request : Request) where
  -- `_source_thread_id`
  recorded_thread : Option (Option String) → Option String
  recorded_thread none = none
  recorded_thread (some conversation_id) = conversation_id

  source_thread_id :
      Option (ConversationReads World Row)
      → StepReads World History
      → String
      → World
      → Option String
  unfolding recorded_thread
  source_thread_id none store resume_from w = none
  source_thread_id (some c) store resume_from w =
      recorded_thread (store.get_run request resume_from w)

  with_source :
      StepReads World History → String → World → Option History → Option (History × Option String)
  unfolding source_thread_id
  with_source store resume_from w none = none
  with_source store resume_from w (some history) =
      some (history, source_thread_id v.conversation_store store resume_from w)

  load_from : Option (StepReads World History) → String → World → Option (History × Option String)
  unfolding with_source
  load_from none resume_from w = none
  load_from (some store) resume_from w =
      with_source store resume_from w (store.continue_run request resume_from w)

  -- `_load_resume_history`
  unfoldable pub load_resume_history : String → World → Option (History × Option String)
  unfolding load_from
  load_resume_history resume_from w = load_from v.step_store resume_from w

  row_messages : Loaded Row → Option (List Message)
  row_messages anonymous = none
  row_messages missing = none
  row_messages (found row) = v.messages_from_jsonable row

  -- `_source_messages`; the null store holds no row.
  unfoldable pub source_messages : Option String → World → Option (List Message)
  unfolding row_messages
  source_messages none w = none
  source_messages (some thread) w = elim v.conversation_store [
    | none ↦ none
    | some c ↦ row_messages (c.load request thread w)
  ]

  abbrev pub thread_exists : Option (ConversationReads World Row) → String → World → Bool
  thread_exists none thread_id w = false
  thread_exists (some c) thread_id w = c.exists request thread_id w

  -- `_would_overwrite_another_thread`
  unfoldable pub would_overwrite_another_thread : Option String → String → World → Bool
  would_overwrite_another_thread none thread_id w = false
  would_overwrite_another_thread (some source) thread_id w =
      if source == thread_id then false else thread_exists v.conversation_store thread_id w

  -- The steps of `__call__`, from the last to the first.
  pub from_history : RunInput → String → World → Option (History × Option String) → Response History
  unfolding would_overwrite_another_thread source_messages
  from_history input resume_from w none = no_resumable_run resume_from
  from_history input resume_from w (some (history, source)) =
      if would_overwrite_another_thread source input.thread_id w
      then would_overwrite resume_from input.thread_id
      else stream (record {
        run_input = input;
        message_history = some history;
        source_messages = source_messages source w;
      })

  pub started : RunInput → World → Option String → Response History
  unfolding from_history load_resume_history
  started input w none =
      stream (record { run_input = input; message_history = none; source_messages = none })
  started input w (some resume_from) =
      from_history input resume_from w (load_resume_history resume_from w)

  pub parsed : Option String → World → ℕ ⊎ RunInput → Response History
  unfolding started
  parsed resume_from w (inl error_count) = invalid_input error_count
  parsed resume_from w (inr input) = started input w resume_from

  pub limited : Option String → Option ℕ × World → Response History × World
  unfolding parsed
  limited resume_from (some retry_after, w) = (rate_limited retry_after, w)
  limited resume_from (none, w) = (parsed resume_from w (v.build_run_input request.body), w)

  -- `_throttled`
  unfoldable pub throttled : Option (Request → World → Option ℕ × World) → World → Option ℕ × World
  throttled none w = (none, w)
  throttled (some consume) w = consume request w

  pub by_method : Option String → Method → World → Response History × World
  unfolding limited throttled
  by_method resume_from Method.post w = limited resume_from (throttled v.throttle w)
  by_method resume_from _ w = (not_allowed (Method.post ∷ []), w)

  pub unless_denied : Option String → World → Option ℕ → Response History × World
  unfolding by_method
  unless_denied resume_from w (some code) = (auth_error code, w)
  unless_denied resume_from w none = by_method resume_from request.method w

  -- `DjangoAGUIView.__call__`
  unfoldable pub call : Option String → World → Response History × World
  unfolding unless_denied
  call resume_from w = unless_denied resume_from w (v.authorize request w)
