-- ===== src/Session.antt =====
-- django_ag_ui/agent/agent_session.py: what a run's session saves, audits and lets through to the
-- client. The adapter, the conversation store and the audit log are parameters; the events are
-- those that reach the transcript.
pub mod Prior
pub mod Exits
pub mod Reasoning
mod Tests
use django_ag_ui.Base.{
  String, Text, List, Option, Bool, true, false, none, some, [], ◌∷◌, ◌++◌, codes, if◌then◌else◌,
  not, keep_if, starts_with,
}
use django_ag_ui.Wire.{Message, Event, run_error, reasoning_start, reasoning_content, other}
use django_ag_ui.Relabel.{message_ids}
use django_ag_ui.History.{ModelMessage, Adapter, strip_binary_content, continued_history}
use django_ag_ui.StoredIds.{lend_stored_ids}
use django_ag_ui.Transcript.{RunTranscript, init, add, messages}
use django_ag_ui.Transcript.StreamedIds.{with_streamed_ids}

-- `Conversation`
pub record Conversation : Type 0 where
  pub thread_id : String
  pub messages : List Message
  owner_id : Option String

-- `AuditEvent` of a run, without its times: the reference of the run, and the error.
pub record AuditEvent : Type 0 where
  pub run_id : String
  pub thread_id : String
  pub error : Text
  pub ip_address : Option String

-- What the session is built with. `store` is `none` for the `NullConversationStore`; its `save`
-- gives `none` where it raises `AnonymousOperationError`.
pub record AgentSession (Response World : Type 0) : Type 0 where
  pub run_id : String
  pub thread_id : String
  pub posted : List Message
  pub message_history : Option (List (ModelMessage Response))
  pub source_messages : Option (List Message)
  pub include_detail : Bool
  pub forward_reasoning : Bool
  pub adapter : Adapter Response
  pub dump_messages : List (ModelMessage Response) → List Message
  pub store : Option (Conversation → World → Option (Unit {0}) × World)
  pub record_audit : AuditEvent → World → World
  pub owner_id_for : Option String
  pub session_key : Option String
  pub resolve_owner_id : Option String
  pub remote_addr : Option String

-- `event.type in REASONING_EVENT_TYPES`
abbrev pub is_reasoning : Event → Bool
unfolding starts_with
is_reasoning (reasoning_start message_id) = true
is_reasoning (reasoning_content message_id delta) = true
is_reasoning (other type) = starts_with (codes type) (codes "REASONING")
is_reasoning e = false

-- `drop_reasoning_events`
abbrev drop_reasoning_events : List Event → List Event
unfolding is_reasoning
drop_reasoning_events es = keep_if (λ e. not (is_reasoning e)) es

unfoldable pub forwarded : Bool → List Event → List Event
unfolding drop_reasoning_events
forwarded true es = es
forwarded false es = drop_reasoning_events es

module _ {Response World : Type 0} (s : AgentSession Response World) where
  -- The ids that a stored row lends; an empty row lends none.
  abbrev pub lent : Option (List Message) → List Message → List Message → List Message
  unfolding lend_stored_ids
  lent none kept new_turn = kept
  lent (some []) kept new_turn = kept
  lent (some (m ∷ ms)) kept new_turn = lend_stored_ids kept (m ∷ ms) (message_ids new_turn)

  -- What the run continued from, as it is stored.
  abbrev pub older :
      Option (List Message) → List (ModelMessage Response) × List Message → List Message
  unfolding lent strip_binary_content
  older source p = lent source (strip_binary_content (s.dump_messages p.0)) p.1

  abbrev pub prior_of : Option (List (ModelMessage Response)) → List Message
  unfolding older continued_history
  prior_of none = s.posted
  prior_of (some history) =
      let p = continued_history s.adapter history s.posted in older s.source_messages p ++ p.1

  -- `_prior_messages`
  unfoldable pub prior_messages : List Message
  unfolding prior_of
  prior_messages = prior_of s.message_history

  abbrev owner_of : Option String → Option String → Option String
  owner_of (some owner) key = some owner
  owner_of none none = none
  owner_of none (some key) = s.resolve_owner_id

  -- `_owner_id`
  unfoldable owner_id : Option String
  owner_id = owner_of s.owner_id_for s.session_key

  -- `_save` of `_message_saver`: an anonymous caller's save is passed over.
  unfoldable conversation_of : List Message → Conversation
  unfolding owner_id
  conversation_of ms = record { thread_id = s.thread_id; messages = ms; owner_id = owner_id }

  saved_by :
      Option (Conversation → World → Option (Unit {0}) × World) → List Message → World → World
  unfolding conversation_of
  saved_by none ms w = w
  saved_by (some save) ms w = (save (conversation_of ms) w).1

  -- `_message_saver`, called on some messages; there is none for the null store.
  unfoldable pub save_messages : List Message → World → World
  unfolding saved_by
  save_messages ms w = saved_by s.store ms w

  -- `_on_complete` of the messages that the run's result dumps to.
  unfoldable pub on_complete : RunTranscript → List Message → World → World
  unfolding save_messages prior_messages with_streamed_ids strip_binary_content
  on_complete transcript dumped w =
      save_messages (prior_messages ++ strip_binary_content (with_streamed_ids transcript dumped)) w

  -- `_finalize` of `_run_finalizer`
  unfoldable pub finalize : RunTranscript → Text → World → World
  unfolding save_messages prior_messages messages
  finalize transcript error w =
      s.record_audit
        (record {
          run_id = s.run_id;
          thread_id = s.thread_id;
          error = error;
          ip_address = s.remote_addr;
        })
        (save_messages (prior_messages ++ messages transcript) w)

  -- `_on_cancel`
  unfoldable on_cancel : RunTranscript → World → World
  unfolding finalize
  on_cancel transcript w = finalize transcript (codes "cancelled: client disconnected mid-run") w

  -- `_on_error`
  unfoldable pub on_error : RunTranscript → Text → World → World
  unfolding finalize
  on_error transcript message w = finalize transcript (codes "run failed: " ++ message) w

  -- `_client_facing_error`
  abbrev pub client_facing_error : Event → Event
  client_facing_error (run_error message) =
      if s.include_detail
      then run_error message
      else run_error (codes "The run failed. The failure has been recorded.")
  client_facing_error e = e

  -- `_persist_on_error` at one event, which the transcript has recorded.
  abbrev pub persist_on_error : RunTranscript → Event → World → World
  unfolding on_error
  persist_on_error transcript (run_error message) w = on_error transcript message w
  persist_on_error transcript e w = w

  -- `_persists`
  abbrev pub persists : Option (Conversation → World → Option (Unit {0}) × World) → Bool
  persists none = false
  persists (some save) = true

  -- The transcript observes the events only where the session persists; `none` is a `KeyError`.
  abbrev pub observed : Bool → RunTranscript → Event → Option RunTranscript
  unfolding add
  observed true transcript e = add transcript e
  observed false transcript e = some transcript

  -- What has come of a stream: the events sent, the transcript and the world; or it raised.
  abbrev pub Streamed : Type 0
  Streamed = Option (List Event × RunTranscript × World)

  abbrev pub sent_before : Event → Streamed → Streamed
  sent_before e none = none
  sent_before e (some (es, t, w)) = some (e ∷ es, t, w)

  abbrev pub go_on : (RunTranscript → Streamed) → Option RunTranscript → Streamed
  go_on next none = none
  go_on next (some t) = next t

  -- The events through `observe` and `_persist_on_error`, one after the other.
  unfoldable pub stream_events : List Event → RunTranscript → World → Streamed
  unfolding persist_on_error observed
  stream_events [] transcript w = some ([], transcript, w)
  stream_events (e ∷ es) transcript w =
      go_on (λ t. sent_before (client_facing_error e) (stream_events es t (persist_on_error t e w)))
        (observed (persists s.store) transcript e)

  -- The stages of `stream` from the filter of the reasoning on.
  unfoldable pub stream : List Event → World → Streamed
  unfolding stream_events forwarded
  stream es w = stream_events (forwarded s.forward_reasoning es) init w
