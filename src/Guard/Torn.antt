-- ===== src/Guard/Torn.antt =====
-- That an interrupted stream is closed and recorded (django_ag_ui/agent/guarded_stream.py).
use django_ag_ui.Base.{
  String, List, [], ◌∷◌, ◌++◌, ◌≡◌, ◌≢◌, refl, sym, subst, ap, ◌∙◌, ◌⊎◌, inl, inr, All,
}
use django_ag_ui.Guard.{
  Outcome, returns, raises, exits, Stage, Interruption, Ending, exhausted, failed, interrupted,
  Wait, settled, timed_out, cancelled_again, Logged, close_failed, finalize_failed, End, returned,
  passed_through, raised_again, State, closing, quietly, close_quietly, finalize_quietly, and_then,
  close_all, waited, ended_by, torn_down, guarded_stream,
}

module _ {World : Type 0} where
  -- A call that raises nothing but an `Exception` or a `CancelledError`.
  abbrev pub Tame : (World → Outcome × World) → Type 0
  Tame f = (w : World) → (f w).0 ≢ exits

  -- The world after each stage was closed in turn, whether or not its closing raised.
  abbrev pub closed : List (Stage World) → World → World
  closed [] w = w
  closed (stage ∷ stages) w = closed stages (closing stage w).1

  abbrev pub TameStage : Stage World → Type 0
  TameStage stage = Tame (closing stage)

  -- The handler goes on, in the world that the call left.
  Goes : World → State World ⊎ State World → Type 0
  Goes w (inl s) = ⊥
  Goes w (inr s) = s.world ≡ w

  quietly-Goes :
      (entry : Logged) (log : List Logged) (r : Outcome × World)
      → r.0 ≢ exits
      → Goes r.1 (quietly entry log r)
  unfolding Goes quietly
  quietly-Goes entry log (returns, w) h = refl
  quietly-Goes entry log (raises, w) h = refl
  quietly-Goes entry log (exits, w) h = absurd (h refl)

  and_then-Goes :
      (w : World) (r : State World ⊎ State World) (f : State World → State World ⊎ State World)
      (g : World → World)
      → Goes w r
      → ((s : State World) → Goes (g s.world) (f s))
      → Goes (g w) (and_then r f)
  unfolding Goes
  and_then-Goes w (inl s) f g h k = h
  and_then-Goes w (inr s) f g h k = subst (λ z. Goes (g z) (f s)) h (k s)

  close-Goes :
      (what : String) (stage : Stage World) (s : State World)
      → TameStage stage
      → Goes (closing stage s.world).1 (close_quietly what stage s)
  unfolding close_quietly
  close-Goes what stage s h =
      quietly-Goes (close_failed what) s.log (closing stage s.world) (h s.world)

  close_all-Goes :
      (stages : List (Stage World)) (s : State World)
      → All TameStage stages
      → Goes (closed stages s.world) (close_all stages s)
  unfolding close_all Goes
  close_all-Goes [] s h = refl
  close_all-Goes (stage ∷ stages) s (h, hs) =
      and_then-Goes (closing stage s.world).1 (close_quietly "stream stage" stage s)
        (close_all stages) (closed stages) (close-Goes "stream stage" stage s h)
        (λ t. close_all-Goes stages t hs)

  waited-Goes :
      (wait : Wait) (w : World) (r : State World ⊎ State World) → Goes w r → Goes w (waited wait r)
  unfolding Goes waited
  waited-Goes settled w r h = h
  waited-Goes timed_out w (inl s) h = absurd h
  waited-Goes cancelled_again w (inl s) h = absurd h
  waited-Goes timed_out w (inr s) h = h
  waited-Goes cancelled_again w (inr s) h = h

  -- The stages in the order in which they are closed.
  abbrev pub in_order : Stage World → List (Stage World) → Stage World → List (Stage World)
  in_order stream racing native = (stream ∷ racing) ++ native ∷ []

  closed-append :
      (xs : List (Stage World)) (y : Stage World) (w : World)
      → closed (xs ++ y ∷ []) w ≡ (closing y (closed xs w)).1
  closed-append [] y w = refl
  closed-append (x ∷ xs) y w = closed-append xs y (closing x w).1

  torn_down-Goes :
      (stream : Stage World) (racing : List (Stage World)) (native : Stage World)
      (on_cancel : World → Outcome × World) (wait : Wait) (s : State World)
      → All TameStage (stream ∷ racing)
      → TameStage native
      → Tame on_cancel
      → Goes
          (on_cancel (closing native (closed (stream ∷ racing) s.world)).1).1
          (torn_down stream racing native on_cancel wait s)
  unfolding torn_down finalize_quietly
  torn_down-Goes stream racing native on_cancel wait s hs hn hc =
      and_then-Goes (closing native (closed (stream ∷ racing) s.world)).1 _
        (λ t. waited wait (finalize_quietly on_cancel t)) (λ w. (on_cancel w).1)
        (and_then-Goes (closed (stream ∷ racing) s.world) (close_all (stream ∷ racing) s)
          (close_quietly "provider stream" native) (λ w. (closing native w).1)
          (close_all-Goes (stream ∷ racing) s hs) (λ t. close-Goes "provider stream" native t hn))
        (λ t.
          waited-Goes wait (on_cancel t.world).1 (finalize_quietly on_cancel t)
            (quietly-Goes finalize_failed t.log (on_cancel t.world) (hc t.world)))

  ended_by-Goes :
      (i : Interruption) (w : World) (r : State World ⊎ State World)
      → Goes w r
      → ((ended_by i r).0 ≡ raised_again i) × ((ended_by i r).1.world ≡ w)
  unfolding Goes ended_by
  ended_by-Goes i w (inl s) h = absurd h
  ended_by-Goes i w (inr s) h = (refl, h)

  -- How the guard ends and what it leaves: `torn` is the world that the closings and the finalizer
  -- leave.
  abbrev pub Left : Ending → World → World → End × State World → Type 0
  Left exhausted w torn r = r ≡ (returned, record { world = w; log = [] })
  Left failed w torn r = r ≡ (passed_through, record { world = w; log = [] })
  Left (interrupted i) w torn r = (r.0 ≡ raised_again i) × (r.1.world ≡ torn)

  -- Stages and a finalizer that raise, if anything, an `Exception` or a `CancelledError`: a stream
  -- that is not interrupted closes and records nothing; of an interrupted one, whichever of the
  -- closings fail and whatever the wait comes to, the stream, the racing stages and the provider's
  -- stream are closed in this order, the finalizer is run once behind them, and the interruption is
  -- raised again.
  pub guarded_stream-Left :
      (ending : Ending) (stream : Stage World) (racing : List (Stage World)) (native : Stage World)
      (on_cancel : World → Outcome × World) (wait : Wait) (w : World)
      → All TameStage (stream ∷ racing)
      → TameStage native
      → Tame on_cancel
      → Left ending w
          (on_cancel (closed (in_order stream racing native) w)).1
          (guarded_stream ending stream racing native on_cancel wait w)
  unfolding guarded_stream
  guarded_stream-Left exhausted stream racing native on_cancel wait w hs hn hc = refl
  guarded_stream-Left failed stream racing native on_cancel wait w hs hn hc = refl
  guarded_stream-Left (interrupted i) stream racing native on_cancel wait w hs hn hc =
      let s : State World = record { world = w; log = [] } in
      let g =
        ended_by-Goes i _ (torn_down stream racing native on_cancel wait s)
          (torn_down-Goes stream racing native on_cancel wait s hs hn hc) in
      (g.0, g.1 ∙ ap (λ z. (on_cancel z).1) (sym (closed-append (stream ∷ racing) native w)))
