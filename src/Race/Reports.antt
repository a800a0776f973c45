-- ===== src/Race/Reports.antt =====
-- What becomes of the reports (django_ag_ui/agent/inject_subagent_events.py).
use mathlib.Core.List.{Perm, perm_middle}
use mathlib.Core.List.Perm
use django_ag_ui.Base.{
  List, Bool, true, false, none, [], ◌∷◌, ◌++◌, ◌≡◌, refl, sym, ap, ◌∙◌, append_assoc, subst,
}
use django_ag_ui.Lockstep.{Entry, reading}
use django_ag_ui.Race.{
  Getter, absent, pending, holding, armed, Sent, event, report, Place, waiting, sending_queued,
  sending_held, sending_item, finishing, raising, Feed, feed_of, Race, race, wait_or_break, drain,
  turn, start, Step, pumps, announce, get_event, get_report, send_held, send_item, take_end,
  take_error, after_queued, after_held, after_item, Run, here, then_step,
}

-- The report that `next_progress` holds and that is not sent yet.
abbrev held_by : {R : Type 0} → Getter R → List R
held_by absent = []
held_by pending = []
held_by (holding r) = r ∷ []

abbrev pub unsent : {R : Type 0} → Place → Getter R → List R
unsent waiting h = held_by h
unsent sending_queued h = held_by h
unsent sending_held h = []
unsent sending_item h = held_by h
unsent finishing h = held_by h
unsent raising h = held_by h

held_by-armed : {R : Type 0} (h : Getter R) → held_by (armed h) ≡ held_by h
unfolding armed
held_by-armed absent = refl
held_by-armed pending = refl
held_by-armed (holding r) = refl

-- While the report that the getter held is being sent, the getter still holds it.
abbrev Sound : {R : Type 0} → Place → Getter R → Type 0
Sound sending_held (holding r) = Unit
Sound sending_held pending = ⊥
Sound sending_held absent = ⊥
Sound _ h = Unit

module _ {R : Type 0} where
  -- What was sent, held and queued is what was announced.
  abbrev Sum : List R → List R → List R → List R → Type 0
  Sum sent held q a = Perm (sent ++ (held ++ q)) a

  announce-Sum :
      (sent held q a : List R) (r : R)
      → Sum sent held q a
      → Sum sent held (q ++ r ∷ []) (a ++ r ∷ [])
  announce-Sum sent held q a r m =
      subst (λ l. Perm l (a ++ r ∷ []))
        (append_assoc sent (held ++ q) (r ∷ [])
          ∙ ap (λ l. sent ++ l) (append_assoc held q (r ∷ [])))
        (Perm.append_right (r ∷ []) m)

  -- The drain sends the first of the queue.
  drain-Sum :
      (sent held q a : List R) (r : R) → Sum sent held (r ∷ q) a → Sum (sent ++ r ∷ []) held q a
  drain-Sum sent held q a r m =
      subst (λ l. Perm l a) (sym (append_assoc sent (r ∷ []) (held ++ q)))
        (Perm.trans (Perm.append_left sent (Perm.symm (perm_middle held q))) m)

  held-Sum : (sent q a : List R) (r : R) → Sum sent (r ∷ []) q a → Sum (sent ++ r ∷ []) [] q a
  held-Sum sent q a r m = subst (λ l. Perm l a) (sym (append_assoc sent (r ∷ []) q)) m

  -- The getter takes the first of the queue.
  taken-Sum :
      (p : Place) (sent q a : List R) (r : R)
      → Sum sent (unsent p pending) (r ∷ q) a
      → Sound {R = R} p pending
      → Sum sent (unsent p (holding r)) q a × Sound p (holding r)
  taken-Sum waiting sent q a r m n = (m, tt)
  taken-Sum sending_queued sent q a r m n = (m, tt)
  taken-Sum sending_held sent q a r m n = absurd n
  taken-Sum sending_item sent q a r m n = (m, tt)
  taken-Sum finishing sent q a r m n = (m, tt)
  taken-Sum raising sent q a r m n = (m, tt)

module _ {A R : Type 0} where
  -- The reports among what was sent.
  abbrev pub reports : List (Sent A R) → List R
  reports [] = []
  reports (event x ∷ o) = reports o
  reports (report r ∷ o) = r ∷ reports o

  reports-report :
      (o : List (Sent A R)) (r : R) → reports (o ++ report r ∷ []) ≡ reports o ++ r ∷ []
  reports-report [] r = refl
  reports-report (event x ∷ o) r = reports-report o r
  reports-report (report s ∷ o) r = ap (λ l. s ∷ l) (reports-report o r)

  reports-event : (o : List (Sent A R)) (x : A) → reports (o ++ event x ∷ []) ≡ reports o
  reports-event [] x = refl
  reports-event (event y ∷ o) x = reports-event o x
  reports-event (report s ∷ o) x = ap (λ l. s ∷ l) (reports-event o x)

  abbrev Accounted : Race A R → Type 0
  Accounted s =
      Sum (reports s.output) (unsent s.place s.next_progress) s.progress s.announced
      × Sound s.place s.next_progress

  break-Accounted :
      (f : Feed A) (g : Getter (Entry A)) (q : List R) (h : Getter R) (e b : Bool) (p : Place)
      (a : List R) (o : List (Sent A R))
      → Sum (reports o) (held_by h) q a
      → Accounted (wait_or_break (race f g q h e p a o) b)
  unfolding wait_or_break
  break-Accounted f g q h e true p a o m = (m, tt)
  break-Accounted f g q h e false p a o m =
      (subst (λ l. Sum (reports o) l q a) (sym (held_by-armed h)) m, tt)

  turn-Accounted :
      (f : Feed A) (g : Getter (Entry A)) (q : List R) (h : Getter R) (e : Bool) (p : Place)
      (a : List R) (o : List (Sent A R))
      → Sum (reports o) (held_by h) q a
      → Accounted (turn (race f g q h e p a o))
  unfolding turn drain
  turn-Accounted f g [] h e p a o m = break-Accounted f g [] h e e p a o m
  turn-Accounted f g (r ∷ q) h e p a o m = (
    subst (λ l. Sum l (held_by h) q a) (sym (reports-report o r))
        (drain-Sum (reports o) (held_by h) q a r m),
    tt,
  )

  step-Accounted : (s t : Race A R) → Step s t → Accounted s → Accounted t
  step-Accounted s t (pumps f f' g q h e p a o st) m = m
  step-Accounted s t (announce r f g q h e p a o) (m, n) =
      (announce-Sum (reports o) (unsent p h) q a r m, n)
  step-Accounted s t (get_event v xs b k u q h e p a o) m = m
  step-Accounted s t (get_report r f g q e p a o) (m, n) = taken-Sum p (reports o) q a r m n
  step-Accounted s t (send_held r f g q a o) (m, n) =
      (subst (λ l. Sum l [] q a) (sym (reports-report o r)) (held-Sum (reports o) q a r m), tt)
  step-Accounted s t (send_item x f q a o) (m, n) =
      (subst (λ l. Sum l [] q a) (sym (reports-event o x)) m, tt)
  step-Accounted s t (take_end f q a o) (m, n) =
      turn-Accounted f absent q pending true waiting a o m
  step-Accounted s t (take_error f q a o) (m, n) = (m, tt)
  step-Accounted s t (after_queued f g q h e a o) (m, n) =
      turn-Accounted f g q h e sending_queued a o m
  step-Accounted s t (after_held r f g q e a o) (m, n) =
      turn-Accounted f g q absent e sending_held a o m
  step-Accounted s t (after_item xs b k v u g q h a o) (m, n) =
      turn-Accounted (feed_of xs b k v u) g q h false waiting a o m

  run-Accounted : (items : List A) (d : Bool) (s : Race A R) → Run (start items d) s → Accounted s
  unfolding start
  run-Accounted items d s here =
      turn-Accounted (feed_of items d reading none 0) absent [] absent false waiting [] []
        (Perm.refl {A = R} [])
  run-Accounted items d s (then_step t u r st) = step-Accounted t s st (run-Accounted items d t r)

  -- However the tasks interleave, the reports that were sent, the one that the getter holds and
  -- those on the queue are the reports that were announced, each as often as it was announced.
  pub reports-Perm :
      (items : List A) (d : Bool) (s : Race A R)
      → Run (start items d) s
      → Perm (reports s.output ++ (unsent s.place s.next_progress ++ s.progress)) s.announced
  reports-Perm items d s r = (run-Accounted items d s r).0
