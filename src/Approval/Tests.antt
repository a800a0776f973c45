-- ===== src/Approval/Tests.antt =====
-- A run that waits for two gated calls (django_ag_ui/agent/stamp_approval_prompts.py).
use django_ag_ui.Base.{String, List, true, none, some, [], ◌∷◌, ◌++◌, ◌≡◌, refl}
use django_ag_ui.Base.Dict.{Dict}
use django_ag_ui.Wire.{str}
use django_ag_ui.Server.Specs.{Binding}
use django_ag_ui.Server.Prompts.{with_registry_prompts}
use django_ag_ui.Approval.{
  Interrupt, Event, call_start, run_finished, stamp_approval_prompts, stamp, with_prompt,
}
use django_ag_ui.Approval.Asked.{Pairs, Asked, stamp_approval_prompts-Asked}

abbrev registry : List Binding
registry =
    record { name = "order"; confirm = some "Order it?" }
    ∷ record { name = "ship"; confirm = some "Ship it?" }
    ∷ []

abbrev configured : Dict String
configured = ("ship", "Really ship?") ∷ []

abbrev before : List Event
before = call_start "c1" "order" ∷ call_start "c2" "ship" ∷ []

abbrev waiting_for : String → Interrupt
waiting_for call = record { id = "i"; tool_call_id = some call; metadata = none }

abbrev asking : String → String → Interrupt
asking call question = record {
  id = "i";
  tool_call_id = some call;
  metadata = some (("x-confirm", str question) ∷ []);
}

asked_both :
    stamp_approval_prompts "x-confirm"
      (λ v. true)
      (with_registry_prompts configured registry)
      (before ++ run_finished (some (waiting_for "c1" ∷ waiting_for "c2" ∷ [])) ∷ [])
    ≡ before ++ run_finished (some (asking "c1" "Order it?" ∷ asking "c2" "Really ship?" ∷ [])) ∷ []
unfolding stamp_approval_prompts with_registry_prompts stamp with_prompt
asked_both = refl

stamp_approval_prompts-Asked_example :
    (js : List Interrupt) × (stamp_approval_prompts "x-confirm"
        (λ v. true)
        (with_registry_prompts configured registry)
        (before ++ run_finished (some (waiting_for "c1" ∷ waiting_for "c2" ∷ [])) ∷ [])
      ≡ before ++ run_finished (some js) ∷ [])
    × Pairs
        (Asked "x-confirm" (λ v. true) configured registry before)
        (waiting_for "c1" ∷ waiting_for "c2" ∷ [])
        js
stamp_approval_prompts-Asked_example =
    stamp_approval_prompts-Asked "x-confirm" (λ v. true) configured registry before
      (waiting_for "c1" ∷ waiting_for "c2" ∷ []) (refl, tt) (tt, (tt, tt))
