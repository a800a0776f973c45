-- ===== src/Lockstep/Tests.antt =====
-- A stream of two items with a heartbeat (django_ag_ui/agent/heartbeat_stream.py).
use django_ag_ui.Base.{ℕ, ◌≤◌, ◌*◌, ◌+◌, false, none, some, [], ◌∷◌, ◌++◌, ◌≡◌}
use django_ag_ui.Lockstep.{
  item, chunk, heartbeat, joining, waiting, yielding, Stream, start, put, beat, take_item, Run,
  here, then_step,
}
use django_ag_ui.Lockstep.Order.{chunks, queued, Idle, At, run_lem}
use django_ag_ui.Lockstep.Moves.{moves}
use django_ag_ui.Lockstep.Settled.{Settles, run-Settles}

-- Item 7 was yielded after a heartbeat, and item 8 is still to come.
abbrev between : Stream ℕ
between = record {
  upstream = 8 ∷ [];
  fails = false;
  pump = joining;
  queue = none;
  unfinished = 1;
  consumer = yielding;
  output = heartbeat ∷ chunk 7 ∷ [];
}

reaches_between : Run (start (7 ∷ 8 ∷ []) false) between
unfolding start
reaches_between =
    then_step _ _
      (then_step _ _ (then_step _ _ here (put 7 (8 ∷ []) false 0 waiting []))
        (beat (8 ∷ []) false joining (some (item 7)) 1 []))
      (take_item 7 (8 ∷ []) false joining 1 (heartbeat ∷ []))

run_lem_example :
    (chunks between.output ++ (queued between.queue ++ between.upstream) ≡ 7 ∷ 8 ∷ [])
    × Idle between.pump between.queue between.consumer
    × At between.consumer (7 ∷ 8 ∷ []) false between
run_lem_example = run_lem (7 ∷ 8 ∷ []) false between reaches_between

run-Settles_example : (moves reaches_between ≤ 4 * 2 + 2) × Settles false between
run-Settles_example = run-Settles (7 ∷ 8 ∷ []) false between reaches_between
