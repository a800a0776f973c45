-- ===== src/Race/Feeding.antt =====
-- The pump's side of the race and what is between it and the consumer
-- (django_ag_ui/agent/inject_subagent_events.py and utils.py).
use django_ag_ui.Base.{
  ℕ, suc, List, Option, Bool, true, false, none, some, [], ◌∷◌, ◌++◌, ◌≡◌, refl, sym, subst,
}
use django_ag_ui.Lockstep.{
  Entry, item, stream_end, failure, Yielded, chunk, Pump, reading, joining, finished, Consumer,
  ended, raised, yielding, Stream, state,
}
use django_ag_ui.Lockstep as Plain
use django_ag_ui.Lockstep.Order.{Good-run}
use django_ag_ui.Lockstep.InStep.{InStep}
use django_ag_ui.Race.{
  Getter, absent, pending, holding, armed, Feed, feed_of, Feeds, put, join, put_end, put_error,
}

module _ {A : Type 0} where
  -- What is between the pump and the consumer: the getter's result, or else the queue's entry.
  abbrev pub in_flight : Getter (Entry A) → Option (Entry A) → Option (Entry A)
  in_flight (holding n) q = some n
  in_flight pending q = q
  in_flight absent q = q

  -- A getter that holds an entry took it out of the queue.
  abbrev pub Taken : Getter (Entry A) → Option (Entry A) → Type 0
  Taken (holding n) q = q ≡ none
  Taken pending q = Unit
  Taken absent q = Unit

  pub in_flight-armed :
      (g : Getter (Entry A)) (q : Option (Entry A)) → in_flight (armed g) q ≡ in_flight g q
  unfolding armed
  in_flight-armed absent q = refl
  in_flight-armed pending q = refl
  in_flight-armed (holding n) q = refl

  pub Taken-armed : (g : Getter (Entry A)) (q : Option (Entry A)) → Taken g q → Taken (armed g) q
  unfolding armed
  Taken-armed absent q t = t
  Taken-armed pending q t = t
  Taken-armed (holding n) q t = t

  abbrev pub view : Feed A → Getter (Entry A) → Consumer → List (Yielded A) → Stream A
  view f g c o = state f.upstream f.fails f.pump (in_flight g f.queue) f.unfinished c o

  -- A plain run from the start of a stream.
  abbrev pub Reached : List A → Bool → Stream A → Type 0
  Reached items b s = Plain.Run (Plain.start items b) s

  abbrev pub More : List A → Bool → Feed A → Getter (Entry A) → Consumer → List (Yielded A) → Type 0
  More items b f g c o = Reached items b (view f g c o) × Taken g f.queue

  -- The pump has nothing to add while an entry is in flight.
  blocked :
      (n : Entry A) (u : ℕ) (c : Consumer) (xs : List A) (b : Bool)
      → InStep reading (some n) u c xs b
      → ⊥
  blocked (item x) u c xs b h = h
  blocked stream_end u c xs b h = h
  blocked failure u c xs b h = h

  pub start-Reached :
      (items : List A) (d : Bool) → Reached items d (state items d reading none 0 Plain.waiting [])
  unfolding Plain.start
  start-Reached items d = Plain.here

  none_blocked :
      (items : List A) (d : Bool) (n : Entry A) (xs : List A) (b : Bool) (u : ℕ) (c : Consumer)
      (o : List (Yielded A))
      → Reached items d (state xs b reading (some n) u c o)
      → ⊥
  none_blocked items d n xs b u c o r = blocked n u c xs b (Good-run items d _ r).2

  put_More :
      (items : List A) (d : Bool) (x : A) (xs : List A) (b : Bool) (u : ℕ) (g : Getter (Entry A))
      (c : Consumer) (o : List (Yielded A))
      → More items d (feed_of (x ∷ xs) b reading none u) g c o
      → More items d (feed_of xs b joining (some (item x)) (suc u)) g c o
  put_More items d x xs b u absent c o (r, t) = (Plain.then_step _ _ r (Plain.put x xs b u c o), tt)
  put_More items d x xs b u pending c o (r, t) =
      (Plain.then_step _ _ r (Plain.put x xs b u c o), tt)
  put_More items d x xs b u (holding n) c o (r, t) =
      absurd (none_blocked items d n (x ∷ xs) b u c o r)

  end_More :
      (items : List A) (d : Bool) (u : ℕ) (g : Getter (Entry A)) (c : Consumer)
      (o : List (Yielded A))
      → More items d (feed_of [] false reading none u) g c o
      → More items d (feed_of [] false finished (some stream_end) (suc u)) g c o
  end_More items d u absent c o (r, t) = (Plain.then_step _ _ r (Plain.put_end u c o), tt)
  end_More items d u pending c o (r, t) = (Plain.then_step _ _ r (Plain.put_end u c o), tt)
  end_More items d u (holding n) c o (r, t) = absurd (none_blocked items d n [] false u c o r)

  error_More :
      (items : List A) (d : Bool) (u : ℕ) (g : Getter (Entry A)) (c : Consumer)
      (o : List (Yielded A))
      → More items d (feed_of [] true reading none u) g c o
      → More items d (feed_of [] true finished (some failure) (suc u)) g c o
  error_More items d u absent c o (r, t) = (Plain.then_step _ _ r (Plain.put_error u c o), tt)
  error_More items d u pending c o (r, t) = (Plain.then_step _ _ r (Plain.put_error u c o), tt)
  error_More items d u (holding n) c o (r, t) = absurd (none_blocked items d n [] true u c o r)

  pub feeds_More :
      (items : List A) (d : Bool) (f f' : Feed A) (g : Getter (Entry A)) (c : Consumer)
      (o : List (Yielded A))
      → Feeds f f'
      → More items d f g c o
      → More items d f' g c o
  feeds_More items d f f' g c o (put x xs b u) m = put_More items d x xs b u g c o m
  feeds_More items d f f' g c o (join xs b q) (r, t) =
      (Plain.then_step _ _ r (Plain.join xs b (in_flight g q) c o), t)
  feeds_More items d f f' g c o (put_end u) m = end_More items d u g c o m
  feeds_More items d f f' g c o (put_error u) m = error_More items d u g c o m

  -- The consumer takes what its getter holds.
  pub taken_item :
      (items : List A) (d : Bool) (x : A) (f : Feed A) (o : List (Yielded A))
      → More items d f (holding (item x)) Plain.waiting o
      → Reached items d (view f absent yielding (o ++ chunk x ∷ []))
  taken_item items d x f o (r, t) =
      subst
        (λ z.
          Reached items d
            (state f.upstream f.fails f.pump z f.unfinished yielding (o ++ chunk x ∷ [])))
        (sym t) (Plain.then_step _ _ r (Plain.take_item x f.upstream f.fails f.pump f.unfinished o))

  pub taken_end :
      (items : List A) (d : Bool) (f : Feed A) (o : List (Yielded A))
      → More items d f (holding stream_end) Plain.waiting o
      → Reached items d (view f absent ended o)
  taken_end items d f o (r, t) =
      subst (λ z. Reached items d (state f.upstream f.fails f.pump z f.unfinished ended o)) (sym t)
        (Plain.then_step _ _ r (Plain.take_end f.upstream f.fails f.pump f.unfinished o))

  pub taken_error :
      (items : List A) (d : Bool) (f : Feed A) (o : List (Yielded A))
      → More items d f (holding failure) Plain.waiting o
      → Reached items d (view f absent raised o)
  taken_error items d f o (r, t) =
      subst (λ z. Reached items d (state f.upstream f.fails f.pump z f.unfinished raised o)) (sym t)
        (Plain.then_step _ _ r (Plain.take_error f.upstream f.fails f.pump f.unfinished o))
