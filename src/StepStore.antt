-- ===== src/StepStore.antt =====
-- django_ag_ui/persistence/scoped_step_store.py: one step store, partitioned by a run-id prefix.
pub mod Inner
pub mod Isolation
mod Tests
use django_ag_ui.Base.{
  ℕ, zero, suc, String, Text, Option, Bool, true, false, none, some, List, [], ◌∷◌, ◌++◌, ◌&&◌,
  codes, drop, length, starts_with, if◌then◌else◌,
}
use django_ag_ui.StepStore.Inner.{Entry, StepStore}

-- `_prefix`
abbrev pub prefix_of : Text → Text
prefix_of scope = scope ++ codes ":"

-- `_key`
unfoldable pub key : Text → Text → Text
key scope run_id = prefix_of scope ++ run_id

-- `_mine`
unfoldable pub mine : Text → Text → Bool
unfolding starts_with
mine scope run_id = starts_with run_id (prefix_of scope)

-- `_unkey`
unfoldable pub unkey : Text → Text → Text
unfolding mine
unkey scope run_id = if mine scope run_id then drop (length (prefix_of scope)) run_id else run_id

module _ {Rest : Type 0} where
  -- `_scoped_in`, `_scoped_out`: `dataclasses.replace` of the run id.
  abbrev pub scoped_in : Text → Entry Rest → Entry Rest
  scoped_in scope r = record r { run_id = key scope r.run_id }

  abbrev scoped_out : Text → Entry Rest → Entry Rest
  scoped_out scope r = record r { run_id = unkey scope r.run_id }

  abbrev out_of : Text → Option (Entry Rest) → Option (Entry Rest)
  out_of scope none = none
  out_of scope (some r) = some (scoped_out scope r)

  abbrev out_all : Text → List (Entry Rest) → List (Entry Rest)
  out_all scope [] = []
  out_all scope (r ∷ rs) = scoped_out scope r ∷ out_all scope rs

  -- The comprehension of `list_runs`.
  unfoldable pub own_runs : Text → List (Entry Rest) → List (Entry Rest)
  unfolding mine unkey
  own_runs scope [] = []
  own_runs scope (r ∷ rs) =
      if mine scope r.run_id then scoped_out scope r ∷ own_runs scope rs else own_runs scope rs

module _ (inner : StepStore) (scope : Text) where
  open inner use {State, Run, Event, Snapshot, Effect}

  unfoldable pub register_run : Entry Run → State → State
  unfolding key
  register_run r s = inner.register_run (scoped_in scope r) s

  unfoldable pub get_run : Text → State → Option (Entry Run)
  unfolding key unkey
  get_run run_id s = out_of scope (inner.get_run (key scope run_id) s)

  unfoldable pub list_runs : Option Text → Option Text → State → List (Entry Run)
  unfolding own_runs
  list_runs parent conversation s = own_runs scope (inner.list_runs parent conversation s)

  unfoldable pub append_event : Entry Event → State → State
  unfolding key
  append_event e s = inner.append_event (scoped_in scope e) s

  unfoldable pub list_events : Text → State → List (Entry Event)
  unfolding key unkey
  list_events run_id s = out_all scope (inner.list_events (key scope run_id) s)

  unfoldable pub save_snapshot : Entry Snapshot → State → State
  unfolding key
  save_snapshot p s = inner.save_snapshot (scoped_in scope p) s

  unfoldable pub latest_snapshot : Text → Bool → State → Option (Entry Snapshot)
  unfolding key unkey
  latest_snapshot run_id interrupted s =
      out_of scope (inner.latest_snapshot (key scope run_id) interrupted s)

  unfoldable pub record_tool_effect : Entry Effect → State → State
  unfolding key
  record_tool_effect e s = inner.record_tool_effect (scoped_in scope e) s

  unfoldable pub get_tool_effect : Text → Text → State → Option (Entry Effect)
  unfolding key unkey
  get_tool_effect run_id call s = out_of scope (inner.get_tool_effect (key scope run_id) call s)

  unfoldable pub list_unresolved_tool_effects : Text → State → List (Entry Effect)
  unfolding key unkey
  list_unresolved_tool_effects run_id s =
      out_all scope (inner.list_unresolved_tool_effects (key scope run_id) s)
