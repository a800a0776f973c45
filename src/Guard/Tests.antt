-- ===== src/Guard/Tests.antt =====
-- A guarded stream whose first closing fails (django_ag_ui/agent/guarded_stream.py).
use django_ag_ui.Base.{ℕ, List, some, [], ◌∷◌, ◌++◌}
use django_ag_ui.Guard.{
  Outcome, returns, raises, Stage, interrupted, generator_exit, timed_out, guarded_stream, closing,
}
use django_ag_ui.Guard.Torn.{Left, in_order, closed, TameStage, Tame, guarded_stream-Left}

-- The world lists what was called.
abbrev stage : Outcome → ℕ → Stage (List ℕ)
stage o n = record { aclose = some (λ w. (o, w ++ n ∷ [])) }

abbrev on_cancel : List ℕ → Outcome × List ℕ
on_cancel w = (raises, w ++ 9 ∷ [])

raises-Tame : (n : ℕ) → TameStage (stage raises n)
unfolding closing
raises-Tame n w = λ h. cc h

returns-Tame : (n : ℕ) → TameStage (stage returns n)
unfolding closing
returns-Tame n w = λ h. cc h

on_cancel-Tame : Tame on_cancel
on_cancel-Tame w = λ h. cc h

guarded_stream-Left_example :
    Left
      (interrupted generator_exit)
      []
      (on_cancel (closed (in_order (stage raises 1) (stage returns 2 ∷ []) (stage returns 3)) [])).1
      (guarded_stream
        (interrupted generator_exit)
        (stage raises 1)
        (stage returns 2 ∷ [])
        (stage returns 3)
        on_cancel
        timed_out
        [])
guarded_stream-Left_example =
    guarded_stream-Left (interrupted generator_exit) (stage raises 1) (stage returns 2 ∷ [])
      (stage returns 3) on_cancel timed_out [] (raises-Tame 1, (returns-Tame 2, tt))
      (returns-Tame 3) on_cancel-Tame
