-- ===== src/Race/Overtake.antt =====
-- Where the reports do not keep their order (django_ag_ui/agent/inject_subagent_events.py): the
-- getter of the reports is still waiting while the consumer is at a yield, so it takes the first of
-- two reports, and the drain at the top of the loop sends the second.
use django_ag_ui.Base.{List, true, false, none, [], ◌∷◌, ◌≡◌, refl}
use django_ag_ui.Lockstep.{item, stream_end, joining, finished}
use django_ag_ui.Race.{
  absent, pending, holding, armed, Sent, event, report, Place, waiting, sending_queued,
  sending_held, sending_item, finishing, feed_of, Race, race, wait_or_break, drain, turn, start,
  put, put_end, pumps, announce, get_event, get_report, send_held, send_item, take_end,
  after_queued, after_item, Run, here, then_step,
}

module _ {A R : Type 0} where
  abbrev pub overtaken : A → R → R → Race A R
  overtaken x r s =
      race (feed_of [] false joining none 0) pending [] (holding r) false sending_held (r ∷ s ∷ [])
        (event x ∷ report s ∷ report r ∷ [])

  -- The client is at the event while both reports are announced.
  pub reports_overtake : (x : A) (r s : R) → Run (start (x ∷ []) false) (overtaken x r s)
  unfolding start turn drain wait_or_break armed
  reports_overtake x r s =
      then_step _ _
        (then_step _ _
          (then_step _ _
            (then_step _ _
              (then_step _ _
                (then_step _ _
                  (then_step _ _
                    (then_step _ _
                      (then_step _ _ here
                        (pumps _ _ pending [] pending false waiting [] [] (put x [] false 0)))
                      (get_event (item x) [] false joining 1 [] pending false waiting [] []))
                    (send_item x (feed_of [] false joining none 1) [] [] []))
                  (announce r _ absent [] pending false sending_item [] _))
                (announce s _ absent (r ∷ []) pending false sending_item (r ∷ []) _))
              (get_report r _ absent (s ∷ []) false sending_item (r ∷ s ∷ []) _))
            (after_item [] false joining none 0 absent (s ∷ []) (holding r) (r ∷ s ∷ []) _))
          (after_queued _ absent [] (holding r) false _ _))
        (send_held r _ pending [] _ _)

  abbrev pub lost : R → R → Race A R
  lost r s =
      race (feed_of [] false finished none 1) absent [] (holding s) true finishing (r ∷ s ∷ [])
        (report r ∷ [])

  -- Upstream's end is taken before the getter has run, and the getter runs while the client is at
  -- the first report.
  pub report_lost : (r s : R) → Run (start [] false) (lost r s)
  unfolding start turn drain wait_or_break armed
  report_lost r s =
      then_step _ _
        (then_step _ _
          (then_step _ _
            (then_step _ _
              (then_step _ _
                (then_step _ _
                  (then_step _ _ here
                    (pumps _ _ pending [] pending false waiting [] [] (put_end 0)))
                  (get_event stream_end [] false finished 1 [] pending false waiting [] []))
                (announce r _ (holding stream_end) [] pending false waiting [] []))
              (announce s _ (holding stream_end) (r ∷ []) pending false waiting (r ∷ []) []))
            (take_end _ (r ∷ s ∷ []) (r ∷ s ∷ []) []))
          (get_report s _ absent [] true sending_queued _ _))
        (after_queued _ absent [] (holding s) true _ _)

  -- The announced reports `a` can be sent as `o` says, with the consumer at `p`.
  abbrev pub Possible : List A → Place → List R → List (Sent A R) → Type 0
  Possible items p a o =
      (t : Race A R) × Run (start items false) t
      × (t.place ≡ p)
      × (t.announced ≡ a)
      × (t.output ≡ o)

  -- Two reports announced one after the other can reach the client the other way round, and of two
  -- reports announced before the stream has ended the second can be left unsent when it has ended.
  pub reports_unordered :
      (x : A) (r s : R)
      → Possible (x ∷ []) sending_held (r ∷ s ∷ []) (event x ∷ report s ∷ report r ∷ [])
        × Possible [] finishing (r ∷ s ∷ []) (report r ∷ [])
  reports_unordered x r s = (
    (overtaken x r s, reports_overtake x r s, refl, refl, refl),
    (lost r s, report_lost r s, refl, refl, refl),
  )
