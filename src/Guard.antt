-- ===== src/Guard.antt =====
-- django_ag_ui/agent/guarded_stream.py: what is closed and recorded when the reader of a stream goes
-- away. The stages and `on_cancel` are parameters, and so is what `asyncio.wait_for` comes to.
pub mod Torn
mod Tests
use django_ag_ui.Base.{
  String, List, Option, Bool, true, false, none, some, [], ◌∷◌, ◌++◌, ◌⊎◌, inl, inr,
}

-- What an awaited call comes to: it returns, raises an `Exception` or a `CancelledError`, or another
-- `BaseException`.
pub data Outcome : Type 0 where
  returns : Outcome
  raises : Outcome
  exits : Outcome

-- A generator, with its `aclose` where it has one.
pub record Stage (World : Type 0) : Type 0 where
  pub aclose : Option (World → Outcome × World)

pub data Interruption : Type 0 where
  cancelled_error : Interruption
  generator_exit : Interruption

-- How the loop over the stream ends.
pub data Ending : Type 0 where
  exhausted : Ending
  failed : Ending
  interrupted : Interruption → Ending

-- What the wait for the shielded task comes to: the task is done, or the wait is over before it is.
pub data Wait : Type 0 where
  settled : Wait
  timed_out : Wait
  cancelled_again : Wait

pub data Logged : Type 0 where
  close_failed : String → Logged
  finalize_failed : Logged
  not_settled : Logged

-- How `guarded_stream` ends: it returns, the stream's error passes through, it raises the
-- interruption again, or another `BaseException` escapes.
pub data End : Type 0 where
  returned : End
  passed_through : End
  raised_again : Interruption → End
  escaped : End

-- The world and the log.
pub record State (World : Type 0) : Type 0 where
  pub world : World
  pub log : List Logged

-- `aclose` was found or not: `getattr(iterator, "aclose", None)`.
called : {World : Type 0} → Option (World → Outcome × World) → World → Outcome × World
called none w = (returns, w)
called (some aclose) w = aclose w

pub closing : {World : Type 0} → Stage World → World → Outcome × World
unfolding called
closing s w = called s.aclose w

module _ {World : Type 0} where
  -- The handler of `except (Exception, asyncio.CancelledError)`: `inl` where another exception
  -- passes it.
  quietly : Logged → List Logged → Outcome × World → State World ⊎ State World
  quietly entry log (returns, w) = inr (record { world = w; log = log })
  quietly entry log (raises, w) = inr (record { world = w; log = log ++ entry ∷ [] })
  quietly entry log (exits, w) = inl (record { world = w; log = log })

  pub close_quietly : String → Stage World → State World → State World ⊎ State World
  unfolding quietly closing
  close_quietly what stage s = quietly (close_failed what) s.log (closing stage s.world)

  pub finalize_quietly : (World → Outcome × World) → State World → State World ⊎ State World
  unfolding quietly
  finalize_quietly on_cancel s = quietly finalize_failed s.log (on_cancel s.world)

  abbrev pub and_then :
      State World ⊎ State World
      → (State World → State World ⊎ State World)
      → State World ⊎ State World
  and_then (inl s) f = inl s
  and_then (inr s) f = f s

  pub close_all : List (Stage World) → State World → State World ⊎ State World
  unfolding close_quietly
  close_all [] s = inr s
  close_all (stage ∷ stages) s = and_then (close_quietly "stream stage" stage s) (close_all stages)

  -- The finalizer runs to its end whatever the wait comes to.
  pub waited : Wait → State World ⊎ State World → State World ⊎ State World
  waited settled r = r
  waited w (inl s) = inr (record s { log = s.log ++ not_settled ∷ [] })
  waited w (inr s) = inr (record s { log = s.log ++ not_settled ∷ [] })

  pub ended_by : Interruption → State World ⊎ State World → End × State World
  ended_by i (inl s) = (escaped, s)
  ended_by i (inr s) = (raised_again i, s)

  -- The `except` clause.
  pub torn_down :
      Stage World
      → List (Stage World)
      → Stage World
      → (World → Outcome × World)
      → Wait
      → State World
      → State World ⊎ State World
  unfolding close_all close_quietly waited finalize_quietly
  torn_down stream racing_stages native_events on_cancel wait s =
      and_then
        (and_then (close_all (stream ∷ racing_stages) s)
          (close_quietly "provider stream" native_events))
        (λ t. waited wait (finalize_quietly on_cancel t))

  pub guarded_stream :
      Ending
      → Stage World
      → List (Stage World)
      → Stage World
      → (World → Outcome × World)
      → Wait
      → World
      → End × State World
  unfolding torn_down ended_by
  guarded_stream exhausted stream racing native on_cancel wait w =
      (returned, record { world = w; log = [] })
  guarded_stream failed stream racing native on_cancel wait w =
      (passed_through, record { world = w; log = [] })
  guarded_stream (interrupted i) stream racing native on_cancel wait w =
      ended_by i (torn_down stream racing native on_cancel wait (record { world = w; log = [] }))
