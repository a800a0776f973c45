-- ===== src/Race.antt =====
-- django_ag_ui/agent/inject_subagent_events.py: upstream's events and the reports of its delegations
-- on one stream. The pump, the two getters, the tasks that announce and the consumer move one at a
-- time; the consumer gives way only at `asyncio.wait` and at its yields. Its closing when the reader
-- goes away (`finally`) is not among the steps.
pub mod Feeding
pub mod Refines
pub mod Reports
pub mod Overtake
mod Tests
use django_ag_ui.Base.{ℕ, zero, suc, List, Option, Bool, true, false, none, some, [], ◌∷◌, ◌++◌}
use django_ag_ui.Lockstep.{Entry, item, stream_end, failure, Pump, reading, joining, finished}

-- A task that gets from a queue: `None`, still waiting, or done with its result.
pub data Getter (A : Type 0) : Type 0 where
  absent : Getter A
  pending : Getter A
  holding : A → Getter A

-- What the client is sent.
pub data Sent (A R : Type 0) : Type 0 where
  event : A → Sent A R
  report : R → Sent A R

-- Where the consumer gives way: at `asyncio.wait`, at the yield of the drain, at the yield of
-- `next_progress.result()`, at `yield item`, or past its loop.
pub data Place : Type 0 where
  waiting : Place
  sending_queued : Place
  sending_held : Place
  sending_item : Place
  finishing : Place
  raising : Place

-- The pump's side: what upstream still gives, whether it then raises, and the queue `events`.
pub record Feed (A : Type 0) : Type 0 where
  pub upstream : List A
  pub fails : Bool
  pub pump : Pump
  pub queue : Option (Entry A)
  pub unfinished : ℕ

-- `announced` is what was put on `progress` so far and `output` what was yielded.
pub record Race (A R : Type 0) : Type 0 where
  pub feed : Feed A
  pub next_event : Getter (Entry A)
  pub progress : List R
  pub next_progress : Getter R
  pub ended : Bool
  pub place : Place
  pub announced : List R
  pub output : List (Sent A R)

-- `asyncio.ensure_future(queue.get())` where there is no such task.
pub armed : {A : Type 0} → Getter A → Getter A
armed absent = pending
armed pending = pending
armed (holding a) = holding a

abbrev pub feed_of : {A : Type 0} → List A → Bool → Pump → Option (Entry A) → ℕ → Feed A
feed_of xs b p q u = record { upstream = xs; fails = b; pump = p; queue = q; unfinished = u }

module _ {A R : Type 0} where
  pub wait_or_break : Race A R → Bool → Race A R
  unfolding armed
  wait_or_break s true = record s { place = finishing }
  wait_or_break s false = record s {
    place = waiting;
    next_event = armed s.next_event;
    next_progress = armed s.next_progress;
  }

  pub drain : Race A R → List R → Race A R
  unfolding wait_or_break
  drain s [] = wait_or_break s s.ended
  drain s (r ∷ rs) = record s {
    progress = rs;
    output = s.output ++ report r ∷ [];
    place = sending_queued;
  }

  -- The loop from its top to the next point where the consumer gives way.
  pub turn : Race A R → Race A R
  unfolding drain
  turn s = drain s s.progress

  -- A state by its fields in order.
  abbrev pub race :
      Feed A
      → Getter (Entry A)
      → List R
      → Getter R
      → Bool
      → Place
      → List R
      → List (Sent A R)
      → Race A R
  race f g q h e p a o = record {
    feed = f;
    next_event = g;
    progress = q;
    next_progress = h;
    ended = e;
    place = p;
    announced = a;
    output = o;
  }

  pub start : List A → Bool → Race A R
  unfolding turn
  start items fails =
      turn (race (feed_of items fails reading none 0) absent [] absent false waiting [] [])

-- One move of `pump_in_lockstep`.
pub data Feeds {A : Type 0} : Feed A → Feed A → Type 0 where
  put :
      (x : A) (xs : List A) (b : Bool) (u : ℕ)
      → Feeds (feed_of (x ∷ xs) b reading none u) (feed_of xs b joining (some (item x)) (suc u))
  join :
      (xs : List A) (b : Bool) (q : Option (Entry A))
      → Feeds (feed_of xs b joining q 0) (feed_of xs b reading q 0)
  put_end :
      (u : ℕ)
      → Feeds
          (feed_of [] false reading none u)
          (feed_of [] false finished (some stream_end) (suc u))
  put_error :
      (u : ℕ)
      → Feeds (feed_of [] true reading none u) (feed_of [] true finished (some failure) (suc u))

-- One move of any task.
pub data Step {A R : Type 0} : Race A R → Race A R → Type 0 where
  pumps :
      (f f' : Feed A) (g : Getter (Entry A)) (q : List R) (h : Getter R) (e : Bool) (p : Place)
      (a : List R) (o : List (Sent A R))
      → Feeds f f'
      → Step (race f g q h e p a o) (race f' g q h e p a o)
  -- `SUBAGENT_SINK.get().put_nowait(event)`
  announce :
      (r : R) (f : Feed A) (g : Getter (Entry A)) (q : List R) (h : Getter R) (e : Bool) (p : Place)
      (a : List R) (o : List (Sent A R))
      → Step (race f g q h e p a o) (race f g (q ++ r ∷ []) h e p (a ++ r ∷ []) o)
  -- `events.get()` has its result.
  get_event :
      (n : Entry A) (xs : List A) (b : Bool) (m : Pump) (u : ℕ) (q : List R) (h : Getter R)
      (e : Bool) (p : Place) (a : List R) (o : List (Sent A R))
      → Step
          (race (feed_of xs b m (some n) u) pending q h e p a o)
          (race (feed_of xs b m none u) (holding n) q h e p a o)
  -- `progress.get()` has its result.
  get_report :
      (r : R) (f : Feed A) (g : Getter (Entry A)) (q : List R) (e : Bool) (p : Place) (a : List R)
      (o : List (Sent A R))
      → Step (race f g (r ∷ q) pending e p a o) (race f g q (holding r) e p a o)
  -- `yield next_progress.result()`, whether or not the event is there too
  send_held :
      (r : R) (f : Feed A) (g : Getter (Entry A)) (q : List R) (a : List R) (o : List (Sent A R))
      → Step
          (race f g q (holding r) false waiting a o)
          (race f g q (holding r) false sending_held a (o ++ report r ∷ []))
  -- `yield item`
  send_item :
      (x : A) (f : Feed A) (q : List R) (a : List R) (o : List (Sent A R))
      → Step
          (race f (holding (item x)) q pending false waiting a o)
          (race f absent q pending false sending_item a (o ++ event x ∷ []))
  -- `item is STREAM_END`
  take_end :
      (f : Feed A) (q : List R) (a : List R) (o : List (Sent A R))
      → Step
          (race f (holding stream_end) q pending false waiting a o)
          (turn (race f absent q pending true waiting a o))
  -- `raise item`
  take_error :
      (f : Feed A) (q : List R) (a : List R) (o : List (Sent A R))
      → Step
          (race f (holding failure) q pending false waiting a o)
          (race f absent q pending false raising a o)
  -- The client asks for more after a report that was drained,
  after_queued :
      (f : Feed A) (g : Getter (Entry A)) (q : List R) (h : Getter R) (e : Bool) (a : List R)
      (o : List (Sent A R))
      → Step (race f g q h e sending_queued a o) (turn (race f g q h e sending_queued a o))
  -- after the report that the getter held,
  after_held :
      (r : R) (f : Feed A) (g : Getter (Entry A)) (q : List R) (e : Bool) (a : List R)
      (o : List (Sent A R))
      → Step
          (race f g q (holding r) e sending_held a o)
          (turn (race f g q absent e sending_held a o))
  -- or after an item: `events.task_done()`.
  after_item :
      (xs : List A) (b : Bool) (m : Pump) (n : Option (Entry A)) (u : ℕ) (g : Getter (Entry A))
      (q : List R) (h : Getter R) (a : List R) (o : List (Sent A R))
      → Step
          (race (feed_of xs b m n (suc u)) g q h false sending_item a o)
          (turn (race (feed_of xs b m n u) g q h false waiting a o))

-- A run of any number of moves.
pub data Run {A R : Type 0} (s : Race A R) : Race A R → Type 0 where
  here : Run s s
  then_step : (t u : Race A R) → Run s t → Step t u → Run s u
