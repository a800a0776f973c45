-- ===== src/Transcript/Tests.antt =====
-- One run of django_ag_ui/agent/run_transcript.py: an answer, a call with its result, and the dump.
use django_ag_ui.Base.{String, Text, List, Option, none, some, [], ◌∷◌, ◌≡◌, refl, codes}
use django_ag_ui.Wire.{
  Event, Message, ToolCall, assistant, tool, text_start, text_content, call_start, call_args,
  call_end, call_result,
}
use django_ag_ui.Relabel.{relabel, apply_ids, Fresh, Lent}
use django_ag_ui.Transcript.{RunTranscript, draft, result, init, add, observe, messages}
use django_ag_ui.Transcript.Answers.{answer_text-observe}
use django_ag_ui.Transcript.Said.{answer_text}
use django_ag_ui.Transcript.StreamedIds.{with_streamed_ids}
use django_ag_ui.Transcript.StreamedIds.Announced.{Announced}
use django_ag_ui.Transcript.StreamedIds.Lending.{with_streamed_ids-Announced}

abbrev answer_events : List Event
answer_events =
    text_start "m1"
    ∷ text_content "m1" (codes "Hel")
    ∷ text_content "m1" (codes "lo")
    ∷ call_start "c1" "search" (some "m1")
    ∷ call_args "c1" (codes "{}")
    ∷ call_end "c1"
    ∷ call_result (record {
      message_id = "r1";
      tool_call_id = "c1";
      content = codes "found";
      metadata = none;
      extra = [];
    })
    ∷ text_start "m2"
    ∷ text_content "m2" (codes "Done")
    ∷ []

abbrev message : String → Option Text → Option (List ToolCall) → Message
message id content calls = record {
  id = id;
  body = assistant content calls;
  metadata = none;
  extra = [];
}

abbrev search_call : ToolCall
search_call = record { id = "c1"; name = "search"; arguments = codes "{}" }

abbrev result_message : String → Message
result_message id = record {
  id = id;
  body = tool "c1" (codes "found");
  metadata = none;
  extra = [];
}

abbrev transcript : RunTranscript
transcript = record {
  items =
      draft (record {
        message_id = "m1";
        text = codes "Hel" ∷ codes "lo" ∷ [];
        tool_calls = search_call ∷ [];
      })
      ∷ result (result_message "r1")
      ∷ draft (record { message_id = "m2"; text = codes "Done" ∷ []; tool_calls = [] })
      ∷ [];
  pending_calls = [];
  call_parents = ("c1", some "m1") ∷ [];
  reasoning = [];
  activities = [];
}

observe_answer : observe init answer_events ≡ some transcript
unfolding observe add init
observe_answer = refl

messages_answer :
    messages transcript
    ≡ message "m1" (some (codes "Hello")) (some (search_call ∷ []))
      ∷ result_message "r1"
      ∷ message "m2" (some (codes "Done")) none
      ∷ []
unfolding messages
messages_answer = refl

abbrev dump : List Message
dump =
    message "x1" (some (codes "Hello")) (some (search_call ∷ []))
    ∷ result_message "x2"
    ∷ message "x3" (some (codes "Do\nne")) none
    ∷ []

with_streamed_ids-dump :
    with_streamed_ids transcript dump
    ≡ message "m1" (some (codes "Hello")) (some (search_call ∷ []))
      ∷ result_message "r1"
      ∷ message "m2" (some (codes "Do\nne")) none
      ∷ []
unfolding with_streamed_ids relabel
with_streamed_ids-dump = refl

answer_text-observe_example : answer_text "m1" (messages transcript) ≡ codes "Hello"
answer_text-observe_example = answer_text-observe "m1" answer_events transcript observe_answer

with_streamed_ids-Announced_example :
    (gs : List (Option String)) × (with_streamed_ids transcript dump ≡ apply_ids gs dump)
    × Lent (λ m x. Announced transcript m.body x) dump gs
    × Fresh [] gs
with_streamed_ids-Announced_example = with_streamed_ids-Announced transcript dump
