-- ===== src/Transcript/Calls.antt =====
-- Tool calls in the event stream (django_ag_ui/agent/run_transcript.py, `add`): a call is recorded
-- when it ends, and an event for a call that is not pending raises.
use django_ag_ui.Base.{String, Text, List, Option, none, some, [], ◌∷◌, ◌++◌, ◌≡◌, ◌↔◌, join, arith}
use django_ag_ui.Base.Dict.{Dict, lookup, remove}
use django_ag_ui.Wire.{Event, call_args, call_end}
use django_ag_ui.Transcript.{RunTranscript, PendingCall, add, draft_for, add_call, parent_or}

-- The call an event needs pending, if it needs one.
abbrev pub needs : Event → Option String
needs (call_args call delta) = some call
needs (call_end call) = some call
needs e = none

abbrev Raises : RunTranscript → Option String → Type 0
Raises t none = ⊥
Raises t (some call) = lookup call t.pending_calls ≡ none

-- `add` raises exactly on the arguments or the end of a call that is not pending.
add-eq-none : (t : RunTranscript) (e : Event) → (add t e ≡ none) ↔ Raises t (needs e)
unfolding add
add-eq-none t (call_args call delta) = ground arith
add-eq-none t (call_end call) = ground arith
add-eq-none t _ = (λ h. cc, λ h. absurd h)

abbrev pub arguments_of : String → List Text → List Event
arguments_of call [] = call_end call ∷ []
arguments_of call (d ∷ ds) = call_args call d ∷ arguments_of call ds

-- The transcript once a pending call has ended with those pieces of its arguments.
abbrev ended : RunTranscript → String → PendingCall → List Text → RunTranscript
ended t call p pieces = record t {
  pending_calls = remove call t.pending_calls;
  items =
      draft_for (parent_or p.parent_message_id call)
        (add_call (record { id = call; name = p.name; arguments = join pieces })) t.items;
}

abbrev recorded : RunTranscript → String → PendingCall → List Text → RunTranscript
recorded t call p ds = ended t call p (p.args ++ ds)
