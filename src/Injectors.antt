-- ===== src/Injectors.antt =====
-- django_ag_ui/agent/inject_compaction_events.py and inject_invalidation_events.py, with
-- compaction_observer.py, publish_invalidation.py and resource_invalidation.py: what a run puts on
-- the two sinks while its events are produced. Fresh message ids and times are left out.
pub mod Loop
pub mod Timely
mod Tests
use django_ag_ui.Base.{
  ℕ, ◌-◌, Text, List, Option, Bool, true, false, none, some, [], ◌∷◌, ◌++◌, map, ltb, if◌then◌else◌,
}

-- `CustomEvent` of `resource_invalidation`
pub record Invalidation : Type 0 where
  pub keys : List Text
  pub reason : Option Text

pub record Compaction : Type 0 where
  pub before : ℕ
  pub after : ℕ

-- An event on the stream: one of the run's own, an invalidation, or the activity of a compaction
-- with its `removed`, `before` and `after`.
pub data Shown (E : Type 0) : Type 0 where
  own : E → Shown E
  invalidation : Invalidation → Shown E
  compaction : ℕ → ℕ → ℕ → Shown E

-- What a run does: it calls `publish_invalidation`, it makes a model request whose messages a
-- wrapped capability takes from one number to another, or it produces an event.
pub data Act (E : Type 0) : Type 0 where
  publishes : List Text → Option Text → Act E
  requests : ℕ → ℕ → Act E
  emits : Shown E → Act E

-- The value of a context variable that holds a sink: `None` where nothing set it.
abbrev pub Sink : Type 0 → Type 0
Sink N = Option (List N)

pub resource_invalidation : List Text → Option Text → Invalidation
resource_invalidation keys reason = record { keys = keys; reason = reason }

-- Whether it was put on the sink, and the sink after it.
pub publish_invalidation : List Text → Option Text → Sink Invalidation → Bool × Sink Invalidation
unfolding resource_invalidation
publish_invalidation keys reason none = (false, none)
publish_invalidation keys reason (some sink) =
    (true, some (sink ++ resource_invalidation keys reason ∷ []))

-- `Compaction.removed`
pub removed : Compaction → ℕ
removed c = c.before - c.after

-- The sink after `CompactionObserver.before_model_request`.
pub before_model_request : ℕ → ℕ → Sink Compaction → Sink Compaction
before_model_request before after none = none
before_model_request before after (some sink) =
    if ltb after before
    then some (sink ++ record { before = before; after = after } ∷ [])
    else some sink

-- `_drain`: what is on the sink, and the sink after it.
pub drained : {N : Type 0} → Sink N → List N × Sink N
drained none = ([], none)
drained (some sink) = (sink, some [])

module _ {E : Type 0} where
  -- `_to_event`
  pub to_event : Compaction → Shown E
  unfolding removed
  to_event c = compaction (removed c) c.before c.after

  pub on_invalidation_sink : Act E → Sink Invalidation → Sink Invalidation
  unfolding publish_invalidation
  on_invalidation_sink (publishes keys reason) sink = (publish_invalidation keys reason sink).1
  on_invalidation_sink (requests before after) sink = sink
  on_invalidation_sink (emits e) sink = sink

  pub on_compaction_sink : Act E → Sink Compaction → Sink Compaction
  unfolding before_model_request
  on_compaction_sink (publishes keys reason) sink = sink
  on_compaction_sink (requests before after) sink = before_model_request before after sink
  on_compaction_sink (emits e) sink = sink

  flushed : {N : Type 0} → (N → Shown E) → Bool → Sink N → List (Act E)
  unfolding drained
  flushed show true sink = []
  flushed show false sink = map (λ n. emits (show n)) (drained sink).0

  -- The loop that both injectors are: what is on the sink goes out before the next event, and at
  -- the end; an upstream that raises has no end. What upstream does besides stays in its place.
  module _ {N : Type 0} (show : N → Shown E) (on_sink : Act E → Sink N → Sink N) where
    pub inject : Bool → Sink N → List (Act E) → List (Act E)
    unfolding drained flushed
    inject fails sink [] = flushed show fails sink
    inject fails sink (emits e ∷ rest) =
        map (λ n. emits (show n)) (drained sink).0 ++ emits e ∷ inject fails (drained sink).1 rest
    inject fails sink (publishes keys reason ∷ rest) =
        publishes keys reason ∷ inject fails (on_sink (publishes keys reason) sink) rest
    inject fails sink (requests before after ∷ rest) =
        requests before after ∷ inject fails (on_sink (requests before after) sink) rest

  pub inject_compaction_events : Bool → List (Act E) → List (Act E)
  unfolding inject to_event on_compaction_sink
  inject_compaction_events fails acts = inject to_event on_compaction_sink fails (some []) acts

  pub inject_invalidation_events : Bool → List (Act E) → List (Act E)
  unfolding inject on_invalidation_sink
  inject_invalidation_events fails acts =
      inject invalidation on_invalidation_sink fails (some []) acts

  -- The two as `AgentSession.stream` nests them.
  pub injected : Bool → List (Act E) → List (Act E)
  unfolding inject_compaction_events inject_invalidation_events
  injected fails acts = inject_invalidation_events fails (inject_compaction_events fails acts)

  -- What the client is sent.
  pub shown : List (Act E) → List (Shown E)
  shown [] = []
  shown (emits e ∷ acts) = e ∷ shown acts
  shown (publishes keys reason ∷ acts) = shown acts
  shown (requests before after ∷ acts) = shown acts
