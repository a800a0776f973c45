-- ===== src/StepStore/Inner.antt =====
-- The `StepStore` protocol of pydantic-ai-harness, as django_ag_ui/persistence/scoped_step_store.py
-- calls it for one owner. Its records carry a run id; the rest of each is opaque here.
use django_ag_ui.Base.{Text, Option, Bool, some, List, ◌≡◌, text_eq, if◌then◌else◌}

pub record Entry (Rest : Type 0) : Type 0 where
  pub run_id : Text
  pub rest : Rest

pub record StepStore : Type 1 where
  pub State : Type 0
  pub Run : Type 0
  pub Event : Type 0
  pub Snapshot : Type 0
  pub Effect : Type 0
  pub register_run : Entry Run → State → State
  pub get_run : Text → State → Option (Entry Run)
  pub list_runs : Option Text → Option Text → State → List (Entry Run)
  pub append_event : Entry Event → State → State
  pub list_events : Text → State → List (Entry Event)
  pub save_snapshot : Entry Snapshot → State → State
  pub latest_snapshot : Text → Bool → State → Option (Entry Snapshot)
  pub record_tool_effect : Entry Effect → State → State
  pub get_tool_effect : Text → Text → State → Option (Entry Effect)
  pub list_unresolved_tool_effects : Text → State → List (Entry Effect)

-- What the protocol documents of runs and of resumable snapshots: each is kept by its run id.
pub record KeepsByRun (inner : StepStore) : Type 0 where
  pub get_run-register_run :
      (r : Entry inner.Run) (k : Text) (s : inner.State)
      → inner.get_run k (inner.register_run r s)
        ≡ (if text_eq r.run_id k then some r else inner.get_run k s)
  pub latest_snapshot-save_snapshot :
      (p : Entry inner.Snapshot) (k : Text) (s : inner.State)
      → text_eq p.run_id k ≡ Bool.false
      → (interrupted : Bool)
      → inner.latest_snapshot k interrupted (inner.save_snapshot p s)
        ≡ inner.latest_snapshot k interrupted s
