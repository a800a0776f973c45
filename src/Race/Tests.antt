-- ===== src/Race/Tests.antt =====
-- One event and two reports (django_ag_ui/agent/inject_subagent_events.py).
use mathlib.Core.List.{Perm}
use django_ag_ui.Base.{ℕ, false, [], ◌∷◌, ◌++◌}
use django_ag_ui.Lockstep as Plain
use django_ag_ui.Race.{Race, event, report, sending_held, finishing}
use django_ag_ui.Race.Refines.{forget, forget-Run}
use django_ag_ui.Race.Reports.{reports, unsent, reports-Perm}
use django_ag_ui.Race.Overtake.{
  overtaken, reports_overtake, lost, report_lost, Possible, reports_unordered,
}

abbrev late : Race ℕ ℕ
late = overtaken 7 1 2

forget-Run_example : Plain.Run (Plain.start (7 ∷ []) false) (forget late)
forget-Run_example = forget-Run (7 ∷ []) false late (reports_overtake 7 1 2)

abbrev short : Race ℕ ℕ
short = lost 1 2

reports-Perm_example :
    Perm
      (reports short.output ++ (unsent short.place short.next_progress ++ short.progress))
      (1 ∷ 2 ∷ [])
reports-Perm_example = reports-Perm [] false short (report_lost 1 2)

reports_unordered_example :
    Possible {A = ℕ} {R = ℕ} (7 ∷ []) sending_held (1 ∷ 2 ∷ []) (event 7 ∷ report 2 ∷ report 1 ∷ [])
    × Possible {A = ℕ} {R = ℕ} [] finishing (1 ∷ 2 ∷ []) (report 1 ∷ [])
reports_unordered_example = reports_unordered 7 1 2
