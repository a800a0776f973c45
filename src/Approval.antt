-- ===== src/Approval.antt =====
-- django_ag_ui/agent/stamp_approval_prompts.py: the question that an interrupt of a gated tool call
-- carries. The key it stands under is django-spec-agents' `X_CONFIRM_KEY`, a parameter, and so is
-- which values other than `None` and texts are true in Python's sense.
pub mod Learned
pub mod Asked
mod Tests
use django_ag_ui.Base.{
  String, List, Option, Bool, true, false, none, some, [], ◌∷◌, ◌++◌, ◌==◌, not, or_else, map,
  if◌then◌else◌,
}
use django_ag_ui.Base.Dict.{Dict, lookup, insert}
use django_ag_ui.Wire.{Value, null, str, other, Fields}

pub record Interrupt : Type 0 where
  pub id : String
  pub tool_call_id : Option String
  pub metadata : Option Fields

-- The events that the stage tells apart: the start of a tool call, the end of the run with the
-- interrupts of its outcome, if it has any, and all others.
pub data Event : Type 0 where
  call_start : String → String → Event
  run_finished : Option (List Interrupt) → Event
  other_event : String → Event

-- `metadata or {}`
abbrev pub fields_of : Option Fields → Fields
fields_of none = []
fields_of (some fields) = fields

module _ (x_confirm_key : String) (other_is_true : String → Bool) where
  abbrev pub is_true : Option Value → Bool
  is_true none = false
  is_true (some null) = false
  is_true (some (str s)) = not (s == "")
  is_true (some (other v)) = other_is_true v

  module _ (prompts : Dict String) where
    abbrev pub with_question : Interrupt → Option String → Interrupt
    unfolding insert
    with_question i none = i
    with_question i (some prompt) =
        if prompt == ""
        then i
        else record i { metadata = some (insert x_confirm_key (str prompt) (fields_of i.metadata)) }

    abbrev pub for_call : Dict String → Interrupt → Option String → Interrupt
    unfolding with_question lookup
    for_call names i none = i
    for_call names i (some call) = with_question i (lookup (or_else (lookup call names) "") prompts)

    abbrev pub unless_asked : Bool → Dict String → Interrupt → Interrupt
    unfolding for_call
    unless_asked true names i = i
    unless_asked false names i = for_call names i i.tool_call_id

    -- `_with_prompt`
    unfoldable pub with_prompt : Dict String → Interrupt → Interrupt
    unfolding unless_asked lookup
    with_prompt names i =
        unless_asked (is_true (lookup x_confirm_key (fields_of i.metadata))) names i

    -- `_stamped`: where no interrupt changes, the event that is given back is the same one.
    abbrev pub stamped : Dict String → Option (List Interrupt) → Option (List Interrupt)
    unfolding with_prompt
    stamped names none = none
    stamped names (some interrupts) = some (map (with_prompt names) interrupts)

    -- The loop of `stamp_approval_prompts`.
    unfoldable pub stamp : Dict String → List Event → List Event
    unfolding stamped insert
    stamp names [] = []
    stamp names (call_start call name ∷ es) =
        call_start call name ∷ stamp (insert call name names) es
    stamp names (run_finished interrupts ∷ es) =
        run_finished (stamped names interrupts) ∷ stamp names es
    stamp names (other_event type ∷ es) = other_event type ∷ stamp names es

    -- `stamp_approval_prompts`
    unfoldable pub stamp_approval_prompts : List Event → List Event
    unfolding stamp
    stamp_approval_prompts es = stamp [] es
