-- ===== src/Lockstep/Settled.antt =====
-- That a stream on its way through the pump comes to its end
-- (django_ag_ui/agent/utils.py and heartbeat_stream.py).
use django_ag_ui.Base.{
  ℕ, ◌+◌, ◌*◌, List, Option, Bool, true, false, none, some, [], ◌∷◌, ◌++◌, ◌≡◌, refl, sym, ap,
  length, arith, subst, ◌≤◌,
}
use django_ag_ui.Lockstep.{
  Entry, item, stream_end, failure, Yielded, chunk, Pump, reading, joining, finished, Consumer,
  waiting, yielding, ended, raised, Stream, start, state, Step, put, join, put_end, put_error,
  take_item, task_done, take_end, take_error, Run, here, then_step,
}
use django_ag_ui.Lockstep.Order.{Good-run}
use django_ag_ui.Lockstep.InStep.{InStep}
use django_ag_ui.Lockstep.Moves.{moves, run_left}

-- Where the consumer ends up.
abbrev final : Bool → Consumer
final false = ended
final true = raised

module _ {A : Type 0} where
  Run-append : (s t u : Stream A) → Run s t → Run t u → Run s u
  Run-append s t u r here = r
  Run-append s t u r (then_step v w q st) = then_step v w (Run-append s t v r q) st

  abbrev pub Settles : Bool → Stream A → Type 0
  Settles b s = (t : Stream A) × Run s t × (t.consumer ≡ final b)

  step_Settles : (b : Bool) (s t : Stream A) → Step s t → Settles b t → Settles b s
  step_Settles b s t st (u, r, e) = (u, Run-append s t u (then_step s t here st) r, e)

  end_Settles :
      (p : Pump) (u : ℕ) (xs : List A) (o : List (Yielded A))
      → Settles false (state xs false p (some stream_end) u waiting o)
  end_Settles p u xs o =
      step_Settles false _ (state xs false p none u ended o) (take_end xs false p u o)
        (_, here, refl)

  error_Settles :
      (p : Pump) (u : ℕ) (xs : List A) (o : List (Yielded A))
      → Settles true (state xs true p (some failure) u waiting o)
  error_Settles p u xs o =
      step_Settles true _ (state xs true p none u raised o) (take_error xs true p u o)
        (_, here, refl)

  joined_Settles :
      (b : Bool) (xs : List A) (c : Consumer) (o : List (Yielded A))
      → Settles b (state xs b reading none 0 c o)
      → Settles b (state xs b joining none 0 c o)
  joined_Settles b xs c o h = step_Settles b _ _ (join xs b none c o) h

  yielding_Settles :
      (b : Bool) (xs : List A) (o : List (Yielded A))
      → Settles b (state xs b reading none 0 waiting o)
      → Settles b (state xs b joining none 1 yielding o)
  yielding_Settles b xs o h =
      step_Settles b _ _ (task_done xs b joining none 0 o) (joined_Settles b xs waiting o h)

  queued_Settles :
      (b : Bool) (x : A) (xs : List A) (o : List (Yielded A))
      → Settles b (state xs b reading none 0 waiting (o ++ chunk x ∷ []))
      → Settles b (state xs b joining (some (item x)) 1 waiting o)
  queued_Settles b x xs o h =
      step_Settles b _ _ (take_item x xs b joining 1 o)
        (yielding_Settles b xs (o ++ chunk x ∷ []) h)

  reading_Settles :
      (b : Bool) (xs : List A) (o : List (Yielded A))
      → Settles b (state xs b reading none 0 waiting o)
  reading_Settles false [] o =
      step_Settles false _ _ (put_end 0 waiting o) (end_Settles finished 1 [] o)
  reading_Settles true [] o =
      step_Settles true _ _ (put_error 0 waiting o) (error_Settles finished 1 [] o)
  reading_Settles b (x ∷ xs) o =
      step_Settles b _ _ (put x xs b 0 waiting o)
        (queued_Settles b x xs o (reading_Settles b xs (o ++ chunk x ∷ [])))

  settled-Settles :
      (p : Pump) (q : Option (Entry A)) (u : ℕ) (c : Consumer) (xs : List A) (b : Bool)
      (o : List (Yielded A))
      → InStep p q u c xs b
      → Settles b (state xs b p q u c o)
  settled-Settles reading none u waiting xs b o h =
      subst (λ z. Settles b (state xs b reading none z waiting o)) (sym h) (reading_Settles b xs o)
  settled-Settles joining (some (item x)) u waiting xs b o h =
      subst (λ z. Settles b (state xs b joining (some (item x)) z waiting o)) (sym h)
        (queued_Settles b x xs o (reading_Settles b xs (o ++ chunk x ∷ [])))
  settled-Settles joining none u yielding xs b o h =
      subst (λ z. Settles b (state xs b joining none z yielding o)) (sym h)
        (yielding_Settles b xs o (reading_Settles b xs o))
  settled-Settles joining none u waiting xs b o h =
      subst (λ z. Settles b (state xs b joining none z waiting o)) (sym h)
        (joined_Settles b xs waiting o (reading_Settles b xs o))
  settled-Settles finished (some stream_end) u waiting xs b o h =
      subst (λ z. Settles z (state xs z finished (some stream_end) u waiting o)) (sym h.1)
        (end_Settles finished u xs o)
  settled-Settles finished (some failure) u waiting xs b o h =
      subst (λ z. Settles z (state xs z finished (some failure) u waiting o)) (sym h.1)
        (error_Settles finished u xs o)
  settled-Settles finished none u ended xs b o h = (_, here, sym (ap final h.1))
  settled-Settles finished none u raised xs b o h = (_, here, sym (ap final h.1))
  settled-Settles _ _ _ _ xs b o h = absurd h

  -- However the two tasks and the heartbeats interleave: no run has more than four moves for each
  -- item and two for the end, heartbeats aside; and from wherever a run stands, the consumer can
  -- still come to its end: it ends after a stream that does not raise, and raises after one that
  -- does.
  pub run-Settles :
      (items : List A) (b : Bool) (s : Stream A) (r : Run (start items b) s)
      → (moves r ≤ 4 * length items + 2) × Settles b s
  run-Settles items b s r =
      let g = Good-run items b s r in
      let m = run_left items b s r in
      (
        omega (arith, m),
        subst (λ z. Settles z s) g.1
            (settled-Settles s.pump s.queue s.unfinished s.consumer s.upstream s.fails s.output
              g.2),
      )
