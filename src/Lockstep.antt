-- ===== src/Lockstep.antt =====
-- The pump of django_ag_ui/agent/utils.py and the consumer of django_ag_ui/agent/heartbeat_stream.py
-- as steps on a shared state: either task may move whenever what it waits for is there, so a run is
-- any interleaving. The closing of a stream whose reader goes away is not among the steps.
pub mod InStep
pub mod Order
pub mod Moves
pub mod Settled
mod Tests
use django_ag_ui.Base.{
  ℕ, zero, suc, ◌+◌, ◌-◌, List, Option, Bool, true, false, none, some, [], ◌∷◌, ◌++◌, ◌≡◌,
}

-- What the pump queues: an item, `STREAM_END`, or the error that upstream raised.
pub data Entry (A : Type 0) : Type 0 where
  item : A → Entry A
  stream_end : Entry A
  failure : Entry A

-- What the consumer yields: an item or `_HEARTBEAT_COMMENT`.
pub data Yielded (A : Type 0) : Type 0 where
  chunk : A → Yielded A
  heartbeat : Yielded A

-- Where `pump_in_lockstep` is: at `async for`, at `out.join()`, or past its loop.
pub data Pump : Type 0 where
  reading : Pump
  joining : Pump
  finished : Pump

-- Where `heartbeat_stream` is: waiting for the queue, at its `yield item`, ended or raised.
pub data Consumer : Type 0 where
  waiting : Consumer
  yielding : Consumer
  ended : Consumer
  raised : Consumer

-- `upstream` is what the stream still gives, `fails` whether it then raises, `queue` the queue of
-- one place with its count of `unfinished` items, and `output` what was yielded.
pub record Stream (A : Type 0) : Type 0 where
  pub upstream : List A
  pub fails : Bool
  pub pump : Pump
  pub queue : Option (Entry A)
  pub unfinished : ℕ
  pub consumer : Consumer
  pub output : List (Yielded A)

unfoldable pub start : {A : Type 0} → List A → Bool → Stream A
start items fails = record {
  upstream = items;
  fails = fails;
  pump = reading;
  queue = none;
  unfinished = 0;
  consumer = waiting;
  output = [];
}

-- A state by its fields in order.
abbrev pub state :
    {A : Type 0}
    → List A
    → Bool
    → Pump
    → Option (Entry A)
    → ℕ
    → Consumer
    → List (Yielded A)
    → Stream A
state xs b p q u c o = record {
  upstream = xs;
  fails = b;
  pump = p;
  queue = q;
  unfinished = u;
  consumer = c;
  output = o;
}

-- One step of either task.
pub data Step {A : Type 0} : Stream A → Stream A → Type 0 where
  -- `await out.put(item)` of the next item, which waits for room.
  put :
      (x : A) (xs : List A) (b : Bool) (u : ℕ) (c : Consumer) (o : List (Yielded A))
      → Step (state (x ∷ xs) b reading none u c o) (state xs b joining (some (item x)) (suc u) c o)
  -- `await out.join()` returns.
  join :
      (xs : List A) (b : Bool) (q : Option (Entry A)) (c : Consumer) (o : List (Yielded A))
      → Step (state xs b joining q 0 c o) (state xs b reading q 0 c o)
  -- `await out.put(STREAM_END)`
  put_end :
      (u : ℕ) (c : Consumer) (o : List (Yielded A))
      → Step
          (state [] false reading none u c o)
          (state [] false finished (some stream_end) (suc u) c o)
  -- `await out.put(error)`
  put_error :
      (u : ℕ) (c : Consumer) (o : List (Yielded A))
      → Step (state [] true reading none u c o) (state [] true finished (some failure) (suc u) c o)
  -- The wait timed out: a heartbeat is yielded.
  beat :
      (xs : List A) (b : Bool) (p : Pump) (q : Option (Entry A)) (u : ℕ) (o : List (Yielded A))
      → Step (state xs b p q u waiting o) (state xs b p q u waiting (o ++ heartbeat ∷ []))
  -- `yield item`
  take_item :
      (x : A) (xs : List A) (b : Bool) (p : Pump) (u : ℕ) (o : List (Yielded A))
      → Step
          (state xs b p (some (item x)) u waiting o)
          (state xs b p none u yielding (o ++ chunk x ∷ []))
  -- `chunks.task_done()`
  task_done :
      (xs : List A) (b : Bool) (p : Pump) (q : Option (Entry A)) (u : ℕ) (o : List (Yielded A))
      → Step (state xs b p q (suc u) yielding o) (state xs b p q u waiting o)
  -- `break`
  take_end :
      (xs : List A) (b : Bool) (p : Pump) (u : ℕ) (o : List (Yielded A))
      → Step (state xs b p (some stream_end) u waiting o) (state xs b p none u ended o)
  -- `raise item`
  take_error :
      (xs : List A) (b : Bool) (p : Pump) (u : ℕ) (o : List (Yielded A))
      → Step (state xs b p (some failure) u waiting o) (state xs b p none u raised o)

-- A run of any number of steps.
pub data Run {A : Type 0} (s : Stream A) : Stream A → Type 0 where
  here : Run s s
  then_step : (t u : Stream A) → Run s t → Step t u → Run s u
