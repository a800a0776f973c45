-- ===== src/StepStore/Tests.antt =====
-- A store that keeps runs and checkpoints by run id, under two scopes
-- (django_ag_ui/persistence/scoped_step_store.py).
use django_ag_ui.Base.{
  ℕ, Text, Option, false, none, some, List, [], ◌∷◌, ◌++◌, ◌≡◌, refl, codes, text_eq, text_eq_refl,
  true, subst, if◌then◌else◌, arith,
}
use django_ag_ui.StepStore.{
  register_run, get_run, save_snapshot, latest_snapshot, own_runs, list_runs,
}
use django_ag_ui.StepStore.Inner.{Entry, StepStore, KeepsByRun}
use django_ag_ui.StepStore.Isolation.{
  scopes_isolated, colon_breaks_isolation, own_runs-written, written, written_in,
}

record Kept : Type 0 where
  runs : Text → Option (Entry ℕ)
  listed : List (Entry ℕ)
  snapshots : Text → Option (Entry ℕ)

abbrev put : Entry ℕ → (Text → Option (Entry ℕ)) → Text → Option (Entry ℕ)
put r f k = if text_eq r.run_id k then some r else f k

abbrev memory : StepStore
memory = record {
  State = Kept;
  Run = ℕ;
  Event = ℕ;
  Snapshot = ℕ;
  Effect = ℕ;
  register_run = λ r s. record s { runs = put r s.runs; listed = s.listed ++ r ∷ [] };
  get_run = λ k s. s.runs k;
  list_runs = λ parent conversation s. s.listed;
  append_event = λ e s. s;
  list_events = λ k s. [];
  save_snapshot = λ p s. record s { snapshots = put p s.snapshots };
  latest_snapshot = λ k interrupted s. s.snapshots k;
  record_tool_effect = λ e s. s;
  get_tool_effect = λ k call s. none;
  list_unresolved_tool_effects = λ k s. [];
}

memory-KeepsByRun : KeepsByRun memory
memory-KeepsByRun = record {
  get_run-register_run = λ r k s. refl;
  latest_snapshot-save_snapshot = λ p k s e interrupted. rw e;
}

abbrev start : Kept
start = record { runs = λ k. none; listed = []; snapshots = λ k. none }

abbrev run : Entry ℕ
run = record { run_id = codes "r1"; rest = 7 }

lists_own_runs :
    list_runs memory
      (codes "public")
      none
      none
      (register_run memory (codes "public") run (register_run memory (codes "internal") run start))
    ≡ run ∷ []
unfolding list_runs register_run
lists_own_runs = refl

scopes_isolated_example :
    (get_run memory (codes "pub") (codes "r1") (register_run memory (codes "int") run start)
      ≡ get_run memory (codes "pub") (codes "r1") start)
    × (latest_snapshot memory
          (codes "pub")
          (codes "r1")
          false
          (save_snapshot memory (codes "int") run start)
        ≡ latest_snapshot memory (codes "pub") (codes "r1") false start)
scopes_isolated_example =
    scopes_isolated memory memory-KeepsByRun (codes "pub") (codes "int") run run (codes "r1") false
      start (omega arith) (omega arith)
      (λ e.
        let clash : false ≡ true =
          subst (λ s. text_eq (codes "pub") s ≡ true) e (text_eq_refl (codes "pub")) in
        cc clash)

colon_breaks_isolation_example :
    get_run memory (codes "a") (codes "b:r1") (register_run memory (codes "a:b") run start)
    ≡ some (record run { run_id = codes "b:r1" })
colon_breaks_isolation_example =
    colon_breaks_isolation memory memory-KeepsByRun (codes "a") (codes "b") run start

abbrev both : List (Text × Entry ℕ)
both = (codes "pub", run) ∷ (codes "int", run) ∷ []

own_runs-written_example : own_runs (codes "pub") (written both) ≡ written_in (codes "pub") both
own_runs-written_example =
    own_runs-written (codes "pub") both (omega arith) (omega arith, (omega arith, tt))
