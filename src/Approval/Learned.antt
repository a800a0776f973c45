-- ===== src/Approval/Learned.antt =====
-- Which tools the loop knows the calls of (django_ag_ui/agent/stamp_approval_prompts.py).
use django_ag_ui.Base.{
  String, List, Option, Bool, true, false, none, some, [], ◌∷◌, ◌==◌, ◌≡◌, refl, sym, ap, ◌∙◌,
  if◌then◌else◌,
}
use django_ag_ui.Base.Dict.{Dict, lookup, insert, lookup-insert}
use django_ag_ui.Server.Prompts.{or_first, or_first-none}
use django_ag_ui.Approval.{Event, call_start, run_finished, other_event}

abbrev starts_as : String → Event → Option String
starts_as k (call_start call name) = if call == k then some name else none
starts_as k e = none

-- The tool that the events last started under an id.
abbrev pub last_started : String → List Event → Option String
last_started k [] = none
last_started k (e ∷ es) = or_first (last_started k es) (starts_as k e)

-- The tools that the loop has learned of some events.
unfoldable pub learned : Dict String → List Event → Dict String
unfolding insert
learned names [] = names
learned names (call_start call name ∷ es) = learned (insert call name names) es
learned names (e ∷ es) = learned names es

inserted_first :
    (b : Bool) (name : String) (known rest : Option String)
    → or_first rest (if b then some name else known)
      ≡ or_first (or_first rest (if b then some name else none)) known
inserted_first true name known none = refl
inserted_first true name known (some r) = refl
inserted_first false name known none = refl
inserted_first false name known (some r) = refl

pub learned_lem :
    (k : String) (names : Dict String) (es : List Event)
    → lookup k (learned names es) ≡ or_first (last_started k es) (lookup k names)
unfolding learned
learned_lem k names [] = refl
learned_lem k names (call_start call name ∷ es) =
    learned_lem k (insert call name names) es
    ∙ ap (or_first (last_started k es)) (lookup-insert call k name names)
    ∙ inserted_first (call == k) name (lookup k names) (last_started k es)
learned_lem k names (run_finished interrupts ∷ es) =
    learned_lem k names es
    ∙ ap (λ o. or_first o (lookup k names)) (sym (or_first-none (last_started k es)))
learned_lem k names (other_event type ∷ es) =
    learned_lem k names es
    ∙ ap (λ o. or_first o (lookup k names)) (sym (or_first-none (last_started k es)))
