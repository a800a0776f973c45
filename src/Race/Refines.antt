-- ===== src/Race/Refines.antt =====
-- The race with its reports forgotten is the pump and a consumer in lockstep
-- (django_ag_ui/agent/inject_subagent_events.py and utils.py).
use django_ag_ui.Base.{List, Bool, true, false, none, [], ◌∷◌, ◌++◌, ◌≡◌, refl, sym, ap, subst}
use django_ag_ui.Lockstep.{
  Entry, item, stream_end, failure, Yielded, chunk, Pump, reading, joining, finished, Consumer,
  ended, raised, yielding, Stream, state,
}
use django_ag_ui.Lockstep as Plain
use django_ag_ui.Race.{
  Getter, absent, pending, Sent, event, report, Place, waiting, sending_queued, sending_held,
  sending_item, finishing, raising, Feed, feed_of, Race, race, wait_or_break, drain, turn, start,
  Step, pumps, announce, get_event, get_report, send_held, send_item, take_end, take_error,
  after_queued, after_held, after_item, Run, here, then_step,
}
use django_ag_ui.Race.Feeding.{
  in_flight, Taken, in_flight-armed, Taken-armed, view, Reached, More, start-Reached, feeds_More,
  taken_item, taken_end, taken_error,
}

abbrev while_running : Bool → Consumer
while_running true = ended
while_running false = Plain.waiting

abbrev consumer_of : Place → Bool → Consumer
consumer_of waiting e = while_running e
consumer_of sending_queued e = while_running e
consumer_of sending_held e = while_running e
consumer_of sending_item e = yielding
consumer_of finishing e = ended
consumer_of raising e = raised

module _ {A R : Type 0} where
  -- The events among what was sent.
  abbrev pub events : List (Sent A R) → List (Yielded A)
  events [] = []
  events (event x ∷ o) = chunk x ∷ events o
  events (report r ∷ o) = events o

  events-append : (o p : List (Sent A R)) → events (o ++ p) ≡ events o ++ events p
  events-append [] p = refl
  events-append (event x ∷ o) p = ap (λ l. chunk x ∷ l) (events-append o p)
  events-append (report r ∷ o) p = events-append o p

  events-report : (o : List (Sent A R)) (r : R) → events (o ++ report r ∷ []) ≡ events o
  events-report [] r = refl
  events-report (event x ∷ o) r = ap (λ l. chunk x ∷ l) (events-report o r)
  events-report (report s ∷ o) r = events-report o r

  -- The race without its reports and their getter.
  abbrev pub forget : Race A R → Stream A
  forget s = view s.feed s.next_event (consumer_of s.place s.ended) (events s.output)

  forget-break :
      (f : Feed A) (g : Getter (Entry A)) (q : List R) (h : Getter R) (e : Bool) (p : Place)
      (a : List R) (o : List (Sent A R))
      → forget (wait_or_break (race f g q h e p a o) e) ≡ view f g (while_running e) (events o)
  unfolding wait_or_break
  forget-break f g q h true p a o = refl
  forget-break f g q h false p a o =
      ap (λ z. state f.upstream f.fails f.pump z f.unfinished Plain.waiting (events o))
        (in_flight-armed g f.queue)

  forget-turn :
      (f : Feed A) (g : Getter (Entry A)) (q : List R) (h : Getter R) (e : Bool) (p : Place)
      (a : List R) (o : List (Sent A R))
      → forget (turn (race f g q h e p a o)) ≡ view f g (while_running e) (events o)
  unfolding turn drain
  forget-turn f g [] h e p a o = forget-break f g [] h e p a o
  forget-turn f g (r ∷ q) h e p a o = ap (view f g (while_running e)) (events-report o r)

  -- `Taken` of a whole state.
  abbrev Kept : Race A R → Type 0
  Kept s = Taken s.next_event s.feed.queue

  break-Kept :
      (f : Feed A) (g : Getter (Entry A)) (q : List R) (h : Getter R) (e b : Bool) (p : Place)
      (a : List R) (o : List (Sent A R))
      → Taken g f.queue
      → Kept (wait_or_break (race f g q h e p a o) b)
  unfolding wait_or_break
  break-Kept f g q h e true p a o t = t
  break-Kept f g q h e false p a o t = Taken-armed g f.queue t

  turn-Kept :
      (f : Feed A) (g : Getter (Entry A)) (q : List R) (h : Getter R) (e : Bool) (p : Place)
      (a : List R) (o : List (Sent A R))
      → Taken g f.queue
      → Kept (turn (race f g q h e p a o))
  unfolding turn drain
  turn-Kept f g [] h e p a o t = break-Kept f g [] h e e p a o t
  turn-Kept f g (r ∷ q) h e p a o t = t

  Follows : List A → Bool → Race A R → Type 0
  Follows items d s = Reached items d (forget s) × Kept s

  turn-Follows :
      (items : List A) (d : Bool) (f : Feed A) (g : Getter (Entry A)) (q : List R) (h : Getter R)
      (e : Bool) (p : Place) (a : List R) (o : List (Sent A R))
      → More items d f g (while_running e) (events o)
      → Follows items d (turn (race f g q h e p a o))
  unfolding Follows
  turn-Follows items d f g q h e p a o (r, t) =
      (subst (Reached items d) (sym (forget-turn f g q h e p a o)) r, turn-Kept f g q h e p a o t)

  step-Follows :
      (items : List A) (d : Bool) (s t : Race A R)
      → Step s t
      → Follows items d s
      → Follows items d t
  unfolding Follows
  step-Follows items d s t (pumps f f' g q h e p a o st) m =
      feeds_More items d f f' g (consumer_of p e) (events o) st m
  step-Follows items d s t (announce r f g q h e p a o) m = m
  step-Follows items d s t (get_event n xs b k u q h e p a o) (r, v) = (r, refl)
  step-Follows items d s t (get_report r f g q e p a o) m = m
  step-Follows items d s t (send_held r f g q a o) (m, v) =
      (subst (λ z. Reached items d (view f g Plain.waiting z)) (sym (events-report o r)) m, v)
  step-Follows items d s t (send_item x f q a o) m = (
    subst (λ z. Reached items d (view f absent yielding z)) (sym (events-append o (event x ∷ [])))
        (taken_item items d x f (events o) m),
    tt,
  )
  step-Follows items d s t (take_end f q a o) m =
      turn-Follows items d f absent q pending true waiting a o
        (taken_end items d f (events o) m, tt)
  step-Follows items d s t (take_error f q a o) m = (taken_error items d f (events o) m, tt)
  step-Follows items d s t (after_queued f g q h e a o) m =
      turn-Follows items d f g q h e sending_queued a o m
  step-Follows items d s t (after_held r f g q e a o) m =
      turn-Follows items d f g q absent e sending_held a o m
  step-Follows items d s t (after_item xs b k n u g q h a o) (m, v) =
      turn-Follows items d (feed_of xs b k n u) g q h false waiting a o
        (Plain.then_step _ _ m (Plain.task_done xs b k (in_flight g n) u (events o)), v)

  run-Follows :
      (items : List A) (d : Bool) (s : Race A R) → Run (start items d) s → Follows items d s
  unfolding Follows start
  run-Follows items d s here =
      turn-Follows items d (feed_of items d reading none 0) absent [] absent false waiting [] []
        (start-Reached items d, tt)
  run-Follows items d s (then_step t u r st) = step-Follows items d t s st (run-Follows items d t r)

  -- However the pump, the getters, the announcing tasks and the consumer interleave, a run of the
  -- race with its reports forgotten is a run of the pump and the heartbeat's consumer, which takes
  -- straight from the queue.
  pub forget-Run :
      (items : List A) (d : Bool) (s : Race A R)
      → Run (start items d) s
      → Plain.Run (Plain.start items d) (forget s)
  unfolding Follows
  forget-Run items d s r = (run-Follows items d s r).0
