-- ===== src/Lockstep/Order.antt =====
-- Nothing of a stream is lost, repeated or overtaken on its way through the pump
-- (django_ag_ui/agent/utils.py and heartbeat_stream.py).
use django_ag_ui.Base.{
  ℕ, List, Option, Bool, true, false, none, some, [], ◌∷◌, ◌++◌, ◌≡◌, refl, sym, ap, ◌∙◌,
  append_assoc, append-nil,
}
use django_ag_ui.Lockstep.{
  Entry, item, stream_end, failure, Yielded, chunk, heartbeat, Pump, reading, joining, finished,
  Consumer, waiting, yielding, ended, raised, Stream, start, Step, put, join, put_end, put_error,
  beat, take_item, task_done, take_end, take_error, Run, here, then_step,
}
use django_ag_ui.Lockstep.InStep.{
  InStep, put-InStep, join-InStep, end_InStep, error_InStep, take_InStep, done_InStep, ended-InStep,
  raised-InStep,
}

module _ {A : Type 0} where
  -- The items among what was yielded.
  abbrev pub chunks : List (Yielded A) → List A
  chunks [] = []
  chunks (chunk x ∷ o) = x ∷ chunks o
  chunks (heartbeat ∷ o) = chunks o

  abbrev pub queued : Option (Entry A) → List A
  queued (some (item x)) = x ∷ []
  queued _ = []

  chunks-append : (o p : List (Yielded A)) → chunks (o ++ p) ≡ chunks o ++ chunks p
  chunks-append [] p = refl
  chunks-append (chunk x ∷ o) p = ap (λ l. x ∷ l) (chunks-append o p)
  chunks-append (heartbeat ∷ o) p = chunks-append o p

  abbrev Good : List A → Bool → Stream A → Type 0
  Good items b s =
      (chunks s.output ++ (queued s.queue ++ s.upstream) ≡ items)
      × (s.fails ≡ b)
      × InStep s.pump s.queue s.unfinished s.consumer s.upstream s.fails

  Good-start : (items : List A) (b : Bool) → Good items b (start items b)
  unfolding start
  Good-start items b = (refl, refl, refl)

  Good-step :
      (items : List A) (d : Bool) (s t : Stream A) → Step s t → Good items d s → Good items d t
  Good-step items d s t (put x xs b u c o) (e, f, h) = (e, f, put-InStep x xs b u c h)
  Good-step items d s t (join xs b q c o) (e, f, h) = (e, f, join-InStep xs b q c h)
  Good-step items d s t (put_end u c o) (e, f, h) = (e, f, end_InStep [] false u c refl h)
  Good-step items d s t (put_error u c o) (e, f, h) = (e, f, error_InStep [] true u c refl h)
  Good-step items d s t (beat xs b p q u o) (e, f, h) = (
    ap (λ l. l ++ (queued q ++ xs)) (chunks-append o (heartbeat ∷ []) ∙ append-nil (chunks o)) ∙ e,
    f,
    h,
  )
  Good-step items d s t (take_item x xs b p u o) (e, f, h) = (
    ap (λ l. l ++ xs) (chunks-append o (chunk x ∷ [])) ∙ append_assoc (chunks o) (x ∷ []) xs ∙ e,
    f,
    take_InStep x xs b p u h,
  )
  Good-step items d s t (task_done xs b p q u o) (e, f, h) = (e, f, done_InStep xs b p q u h)
  Good-step items d s t (take_end xs b p u o) (e, f, h) = (e, f, ended-InStep xs b p u h)
  Good-step items d s t (take_error xs b p u o) (e, f, h) = (e, f, raised-InStep xs b p u h)

  pub Good-run : (items : List A) (b : Bool) (s : Stream A) → Run (start items b) s → Good items b s
  Good-run items b s here = Good-start items b
  Good-run items b s (then_step t u r st) = Good-step items b t s st (Good-run items b t r)

  -- What holds when the consumer stands at a place.
  abbrev pub At : Consumer → List A → Bool → Stream A → Type 0
  At ended items b s = (chunks s.output ≡ items) × (b ≡ false)
  At raised items b s = (chunks s.output ≡ items) × (b ≡ true)
  At _ items b s = Unit

  all_yielded :
      (o : List (Yielded A)) (xs items : List A)
      → xs ≡ []
      → chunks o ++ xs ≡ items
      → chunks o ≡ items
  all_yielded o xs items e h = sym (append-nil (chunks o)) ∙ ap (λ l. chunks o ++ l) (sym e) ∙ h

  at_lem :
      (items xs : List A) (b f : Bool) (p : Pump) (q : Option (Entry A)) (u : ℕ) (c : Consumer)
      (o : List (Yielded A))
      → chunks o ++ (queued q ++ xs) ≡ items
      → f ≡ b
      → InStep p q u c xs f
      → At c items b (record {
        upstream = xs;
        fails = f;
        pump = p;
        queue = q;
        unfinished = u;
        consumer = c;
        output = o;
      })
  at_lem items xs b f finished none u ended o e g h = (all_yielded o xs items h.0 e, sym g ∙ h.1)
  at_lem items xs b f finished none u raised o e g h = (all_yielded o xs items h.0 e, sym g ∙ h.1)
  at_lem items xs b f p q u waiting o e g h = tt
  at_lem items xs b f p q u yielding o e g h = tt
  at_lem items xs b f reading none u ended o e g h = absurd h
  at_lem items xs b f joining none u ended o e g h = absurd h
  at_lem items xs b f reading (some (item x)) u ended o e g h = absurd h
  at_lem items xs b f joining (some (item x)) u ended o e g h = absurd h
  at_lem items xs b f finished (some (item x)) u ended o e g h = absurd h
  at_lem items xs b f reading (some stream_end) u ended o e g h = absurd h
  at_lem items xs b f joining (some stream_end) u ended o e g h = absurd h
  at_lem items xs b f finished (some stream_end) u ended o e g h = absurd h
  at_lem items xs b f reading (some failure) u ended o e g h = absurd h
  at_lem items xs b f joining (some failure) u ended o e g h = absurd h
  at_lem items xs b f finished (some failure) u ended o e g h = absurd h
  at_lem items xs b f reading none u raised o e g h = absurd h
  at_lem items xs b f joining none u raised o e g h = absurd h
  at_lem items xs b f reading (some (item x)) u raised o e g h = absurd h
  at_lem items xs b f joining (some (item x)) u raised o e g h = absurd h
  at_lem items xs b f finished (some (item x)) u raised o e g h = absurd h
  at_lem items xs b f reading (some stream_end) u raised o e g h = absurd h
  at_lem items xs b f joining (some stream_end) u raised o e g h = absurd h
  at_lem items xs b f finished (some stream_end) u raised o e g h = absurd h
  at_lem items xs b f reading (some failure) u raised o e g h = absurd h
  at_lem items xs b f joining (some failure) u raised o e g h = absurd h
  at_lem items xs b f finished (some failure) u raised o e g h = absurd h

  -- A pump that reads upstream holds no item, and the consumer is done with the one before.
  abbrev pub Idle : Pump → Option (Entry A) → Consumer → Type 0
  Idle reading q c = (q ≡ none) × (c ≡ waiting)
  Idle p q c = Unit

  reading-Idle :
      (p : Pump) (q : Option (Entry A)) (u : ℕ) (c : Consumer) (xs : List A) (b : Bool)
      → InStep p q u c xs b
      → Idle p q c
  reading-Idle reading none u waiting xs b h = (refl, refl)
  reading-Idle reading _ u _ xs b h = absurd h
  reading-Idle joining q u c xs b h = tt
  reading-Idle finished q u c xs b h = tt

  -- However the two tasks and the heartbeats interleave: what was yielded but for the heartbeats,
  -- what is queued and what upstream still gives are the stream's items, in order; the pump reads
  -- upstream only when the queue is empty and the consumer is done with the item before; and a
  -- consumer that has ended, or raised, has yielded every item of a stream that did not raise, or
  -- did.
  pub run_lem :
      (items : List A) (b : Bool) (s : Stream A)
      → Run (start items b) s
      → (chunks s.output ++ (queued s.queue ++ s.upstream) ≡ items)
        × Idle s.pump s.queue s.consumer
        × At s.consumer items b s
  run_lem items b s r =
      let g = Good-run items b s r in
      (
        g.0,
        reading-Idle s.pump s.queue s.unfinished s.consumer s.upstream s.fails g.2,
        at_lem items s.upstream b s.fails s.pump s.queue s.unfinished s.consumer s.output g.0 g.1
            g.2,
      )
