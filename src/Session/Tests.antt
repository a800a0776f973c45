-- ===== src/Session/Tests.antt =====
-- A session that resumes a stored conversation, one that fails, and one that completes
-- (django_ag_ui/agent/agent_session.py).
use django_ag_ui.Base.{
  ℕ, String, List, Option, Bool, true, false, none, some, [], ◌∷◌, ◌++◌, ◌≡◌, codes, All,
}
use django_ag_ui.Wire.{
  Body, Message, Event, user, plain, assistant, text_start, text_content, reasoning_start,
  reasoning_content, run_error,
}
use django_ag_ui.Relabel.{apply_ids, Fresh, Lent}
use django_ag_ui.History.{ModelMessage, response, Adapter, strip_binary_content}
use django_ag_ui.History.Stripped.{Clean}
use django_ag_ui.Transcript.{RunTranscript, draft, messages}
use django_ag_ui.Transcript.StreamedIds.Announced.{Announced}
use django_ag_ui.Session.{AgentSession, AuditEvent, prior_messages, save_messages, on_complete}
use django_ag_ui.Session.Prior.{Prior, prior_messages-Prior, on_complete-Announced}

abbrev message : String → Body → Message
message k b = record { id = k; body = b; metadata = none; extra = [] }

abbrev is_assistant : Body → Bool
is_assistant (assistant t c) = true
is_assistant b = false

abbrev adapter : Adapter ℕ
adapter = record {
  loads_response = λ m. is_assistant m.body;
  loads = λ m. true;
  last_dumped_id = λ ps. "u1";
  pending_tool_calls = λ h. [];
}

abbrev greeting : Message
greeting = message "stored" (assistant (some (codes "Hi")) none)

abbrev question : Message
question = message "u2" (user (plain (codes "And now?")))

-- What is saved and audited, newest first.
abbrev Written : Type 0
Written = List (List Message × List AuditEvent)

abbrev session : Option (List (ModelMessage ℕ)) → AgentSession ℕ Written
session history = record {
  run_id = "r1";
  thread_id = "t1";
  posted = greeting ∷ question ∷ [];
  message_history = history;
  source_messages = some (greeting ∷ []);
  include_detail = false;
  forward_reasoning = false;
  adapter = adapter;
  dump_messages = λ h. message "dumped" (assistant (some (codes "Hi")) none) ∷ [];
  store = some (λ c w. (some tt, (c.messages, []) ∷ w));
  record_audit = λ e w. ([], e ∷ []) ∷ w;
  owner_id_for = some "owner";
  session_key = none;
  resolve_owner_id = none;
  remote_addr = none;
}

abbrev resumed : AgentSession ℕ Written
resumed = session (some (response 1 ∷ []))

abbrev answer : List Event
answer = text_start "m1" ∷ text_content "m1" (codes "Hel") ∷ text_content "m1" (codes "lo") ∷ []

abbrev transcript : RunTranscript
transcript = record {
  items =
      draft (record { message_id = "m1"; text = codes "Hel" ∷ codes "lo" ∷ []; tool_calls = [] })
      ∷ [];
  pending_calls = [];
  call_parents = [];
  reasoning = [];
  activities = [];
}

abbrev redacted : Event
redacted = run_error (codes "The run failed. The failure has been recorded.")

abbrev failure : AuditEvent
failure = record {
  run_id = "r1";
  thread_id = "t1";
  error = codes "run failed: boom";
  ip_address = none;
}

prior_messages-Prior_example : Prior resumed resumed.message_history (prior_messages resumed)
prior_messages-Prior_example = prior_messages-Prior resumed

abbrev thinking : List Event
thinking = reasoning_start "r1" ∷ reasoning_content "r1" (codes "hm") ∷ answer

abbrev dump : List Message
dump = message "x1" (assistant (some (codes "Hello")) none) ∷ []

on_complete-Announced_example :
    (gs : List (Option String)) × (on_complete resumed transcript dump []
      ≡ save_messages resumed
          (prior_messages resumed ++ strip_binary_content (apply_ids gs dump))
          [])
    × All Clean (strip_binary_content (apply_ids gs dump))
    × Lent (λ m x. Announced transcript m.body x) dump gs
    × Fresh [] gs
on_complete-Announced_example = on_complete-Announced resumed transcript dump []
