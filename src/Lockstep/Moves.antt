-- ===== src/Lockstep/Moves.antt =====
-- How many moves a stream needs on its way through the pump
-- (django_ag_ui/agent/utils.py and heartbeat_stream.py).
use django_ag_ui.Base.{
  ℕ, suc, ◌+◌, ◌*◌, List, Option, Bool, true, false, none, some, [], ◌∷◌, ◌≡◌, refl, length, arith,
}
use django_ag_ui.Lockstep.{
  Entry, item, stream_end, failure, Pump, reading, joining, finished, Consumer, waiting, yielding,
  ended, raised, Stream, start, Step, put, join, put_end, put_error, beat, take_item, task_done,
  take_end, take_error, Run, here, then_step,
}
use django_ag_ui.Lockstep.Order.{Good-run}
use django_ag_ui.Lockstep.InStep.{InStep}

module _ {A : Type 0} where
  -- A step that is no heartbeat.
  abbrev pub move : {s t : Stream A} → Step s t → ℕ
  move (beat xs b p q u o) = 0
  move st = 1

  abbrev pub moves : {s t : Stream A} → Run s t → ℕ
  moves here = 0
  moves (then_step t u r st) = moves r + move st

  -- The moves that are still to come.
  abbrev pub left : Pump → Option (Entry A) → Consumer → List A → ℕ
  left reading none waiting xs = 4 * length xs + 2
  left joining (some (item x)) waiting xs = 4 * length xs + 5
  left joining none yielding xs = 4 * length xs + 4
  left joining none waiting xs = 4 * length xs + 3
  left finished (some e) waiting xs = 1
  left _ _ _ xs = 0

  put_left :
      (x : A) (xs : List A) (b : Bool) (u : ℕ) (c : Consumer)
      → InStep reading none u c (x ∷ xs) b
      → left reading none c (x ∷ xs) ≡ left joining (some (item x)) c xs + 1
  put_left x xs b u waiting h = omega arith
  put_left x xs b u _ h = absurd h

  join_left :
      (xs : List A) (b : Bool) (q : Option (Entry A)) (c : Consumer)
      → InStep joining q 0 c xs b
      → left joining q c xs ≡ left reading q c xs + 1
  join_left xs b none waiting h = omega arith
  join_left xs b none yielding h = let clash : ⊥ = omega (arith, h) in absurd clash
  join_left xs b (some (item x)) waiting h = let clash : ⊥ = omega (arith, h) in absurd clash
  join_left xs b _ _ h = absurd h

  end_left :
      (e : Entry A) (b : Bool) (u : ℕ) (c : Consumer)
      → InStep {A = A} reading none u c [] b
      → left reading none c [] ≡ left finished (some e) c [] + 1
  end_left e b u waiting h = refl
  end_left e b u _ h = absurd h

  take_left :
      (x : A) (xs : List A) (b : Bool) (p : Pump) (u : ℕ)
      → InStep p (some (item x)) u waiting xs b
      → left p (some (item x)) waiting xs ≡ left p none yielding xs + 1
  take_left x xs b joining u h = omega arith
  take_left x xs b _ u h = absurd h

  done_left :
      (xs : List A) (b : Bool) (p : Pump) (q : Option (Entry A)) (u : ℕ)
      → InStep p q u yielding xs b
      → left p q yielding xs ≡ left p q waiting xs + 1
  done_left xs b joining none u h = omega arith
  done_left xs b joining (some (item x)) u h = absurd h
  done_left xs b joining (some stream_end) u h = absurd h
  done_left xs b joining (some failure) u h = absurd h
  done_left xs b reading none u h = absurd h
  done_left xs b reading (some e) u h = absurd h
  done_left xs b finished none u h = absurd h
  done_left xs b finished (some (item x)) u h = absurd h
  done_left xs b finished (some stream_end) u h = absurd h
  done_left xs b finished (some failure) u h = absurd h

  ended-left :
      (xs : List A) (b : Bool) (p : Pump) (u : ℕ)
      → InStep p (some stream_end) u waiting xs b
      → left p (some stream_end) waiting xs ≡ left p none ended xs + 1
  ended-left xs b finished u h = refl
  ended-left xs b _ u h = absurd h

  raised_left :
      (xs : List A) (b : Bool) (p : Pump) (u : ℕ)
      → InStep p (some failure) u waiting xs b
      → left p (some failure) waiting xs ≡ left p none raised xs + 1
  raised_left xs b finished u h = refl
  raised_left xs b _ u h = absurd h

  abbrev left_of : Stream A → ℕ
  left_of s = left s.pump s.queue s.consumer s.upstream

  abbrev In : Stream A → Type 0
  In s = InStep s.pump s.queue s.unfinished s.consumer s.upstream s.fails

  left-step : (s t : Stream A) (st : Step s t) → In s → left_of s ≡ left_of t + move st
  left-step s t (put x xs b u c o) h = put_left x xs b u c h
  left-step s t (join xs b q c o) h = join_left xs b q c h
  left-step s t (put_end u c o) h = end_left stream_end false u c h
  left-step s t (put_error u c o) h = end_left failure true u c h
  left-step s t (beat xs b p q u o) h = omega arith
  left-step s t (take_item x xs b p u o) h = take_left x xs b p u h
  left-step s t (task_done xs b p q u o) h = done_left xs b p q (suc u) h
  left-step s t (take_end xs b p u o) h = ended-left xs b p u h
  left-step s t (take_error xs b p u o) h = raised_left xs b p u h

  pub run_left :
      (items : List A) (b : Bool) (s : Stream A) (r : Run (start items b) s)
      → moves r + left_of s ≡ 4 * length items + 2
  unfolding start
  run_left items b s here = omega arith
  run_left items b s (then_step t u r st) =
      let e = left-step t s st (Good-run items b t r).2 in
      let i = run_left items b t r in omega (arith, e, i)
