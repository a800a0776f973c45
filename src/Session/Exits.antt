-- ===== src/Session/Exits.antt =====
-- What the client is sent, and what a failed run leaves stored and audited
-- (django_ag_ui/agent/agent_session.py).
use django_ag_ui.Base.{
  String, Text, List, Option, Bool, true, false, none, some, [], ◌∷◌, ◌++◌, ◌≡◌, refl, sym, ap, ap₂,
  ◌∙◌, subst, map, codes, All, if◌then◌else◌,
}
use django_ag_ui.Wire.{Event, run_error}
use django_ag_ui.Transcript.{RunTranscript, init, add, observe, messages}
use django_ag_ui.Transcript.Said.{answer_text, deltas, delta_of}
use django_ag_ui.Transcript.Answers.{answer_text-observe}
use django_ag_ui.Session.{
  AgentSession, prior_messages, save_messages, finalize, on_error, client_facing_error,
  persist_on_error, persists, observed, Streamed, sent_before, go_on, stream_events,
}

module _ {Response World : Type 0} (s : AgentSession Response World) where
  abbrev pub NotError : Event → Type 0
  NotError (run_error message) = ⊥
  NotError e = Unit

  -- What holds of a stream that did not raise.
  abbrev Sent : List Event → RunTranscript → World → Streamed s → Type 0
  Sent es t w none = Unit
  Sent es t w (some (out, t', w')) =
      (out ≡ map (client_facing_error s) es)
      × (persists s s.store ≡ true → observe t es ≡ some t')
      × (All NotError es → w' ≡ w)

  no_effect :
      (e : Event) (t : RunTranscript) (w : World) → NotError e → persist_on_error s t e w ≡ w
  unfolding persist_on_error
  no_effect (run_error message) t w h = absurd h
  no_effect _ t w h = refl

  step_Sent :
      (e : Event) (es : List Event) (t t2 : RunTranscript) (w : World)
      → (persists s s.store ≡ true → add t e ≡ some t2)
      → (r : Streamed s) → Sent es t2 (persist_on_error s t2 e w) r
      → Sent (e ∷ es) t w (sent_before s (client_facing_error s e) r)
  unfolding observe
  step_Sent e es t t2 w f none h = tt
  step_Sent e es t t2 w f (some (out, t3, w3)) h = (
    ap (λ l. client_facing_error s e ∷ l) h.0,
    λ p. rw (f p, observe) (h.1 p),
    λ n. h.2 n.1 ∙ no_effect e t2 w n.0,
  )

  observed_add :
      (b : Bool) (t t2 : RunTranscript) (e : Event)
      → observed s b t e ≡ some t2
      → b ≡ true
      → add t e ≡ some t2
  unfolding observed
  observed_add true t t2 e h p = h
  observed_add false t t2 e h p = cc p

  go_Sent :
      (e : Event) (es : List Event) (t : RunTranscript) (w : World) (o : Option RunTranscript)
      → observed s (persists s s.store) t e ≡ o
      → ((t2 : RunTranscript)
          → Sent es t2
              (persist_on_error s t2 e w)
              (stream_events s es t2 (persist_on_error s t2 e w)))
      → Sent (e ∷ es) t w (
          go_on s
            (λ t2.
              sent_before s
                (client_facing_error s e)
                (stream_events s es t2 (persist_on_error s t2 e w)))
            o)
  go_Sent e es t w none h f = tt
  go_Sent e es t w (some t2) h f =
      step_Sent e es t t2 w (observed_add (persists s s.store) t t2 e h)
        (stream_events s es t2 (persist_on_error s t2 e w)) (f t2)

  stream_Sent :
      (es : List Event) (t : RunTranscript) (w : World) → Sent es t w (stream_events s es t w)
  unfolding stream_events observe
  stream_Sent [] t w = (refl, λ p. refl, λ n. refl)
  stream_Sent (e ∷ es) t w =
      go_Sent e es t w (observed s (persists s s.store) t e) refl
        (λ t2. stream_Sent es t2 (persist_on_error s t2 e w))

  error_delta :
      (k : String) (message : Text) (b : Bool)
      → delta_of k (
          if b
          then run_error message
          else run_error (codes "The run failed. The failure has been recorded."))
        ≡ []
  error_delta k message true = refl
  error_delta k message false = refl

  delta_sent : (k : String) (e : Event) → delta_of k (client_facing_error s e) ≡ delta_of k e
  delta_sent k (run_error message) = error_delta k message s.include_detail
  delta_sent k _ = refl

  pub deltas_sent :
      (k : String) (es : List Event) → deltas k (map (client_facing_error s) es) ≡ deltas k es
  deltas_sent k [] = refl
  deltas_sent k (e ∷ es) = ap₂ ◌++◌ (delta_sent k e) (deltas_sent k es)

  -- A stream that does not raise is sent whole and in order, and a failure's detail is all that is
  -- ever changed in it; where the session persists, the transcript holds, under every id, exactly
  -- the text that the client was sent for it.
  stream_events-observe :
      (es out : List Event) (t : RunTranscript) (w w2 : World) (k : String)
      → persists s s.store ≡ true
      → stream_events s es init w ≡ some (out, t, w2)
      → (out ≡ map (client_facing_error s) es) × (answer_text k (messages t) ≡ deltas k out)
  stream_events-observe es out t w w2 k p h =
      let r : Sent es init w (some (out, t, w2)) =
        subst (λ o. Sent es init w o) h (stream_Sent es init w) in
      (r.0, answer_text-observe k es t (r.1 p) ∙ sym (ap (λ l. deltas k l) r.0 ∙ deltas_sent k es))

  -- What has come of a run that failed with a message.
  abbrev Failed : Text → World → Streamed s → Type 0
  Failed m w none = Unit
  Failed m w (some (out, t, w2)) = w2 ≡ on_error s t m w

  sent_Failed :
      (m : Text) (w : World) (e : Event) (r : Streamed s)
      → Failed m w r
      → Failed m w (sent_before s e r)
  sent_Failed m w e none h = tt
  sent_Failed m w e (some (out, t, w2)) h = h

  go_Failed :
      (m : Text) (w : World) (next : RunTranscript → Streamed s) (o : Option RunTranscript)
      → ((t : RunTranscript) → Failed m w (next t))
      → Failed m w (go_on s next o)
  go_Failed m w next none h = tt
  go_Failed m w next (some t) h = h t

  observed_error : (b : Bool) (t : RunTranscript) (m : Text) → observed s b t (run_error m) ≡ some t
  unfolding observed add
  observed_error true t m = refl
  observed_error false t m = refl

  stream_Failed :
      (m : Text) (es : List Event) (t : RunTranscript) (w : World)
      → All NotError es
      → Failed m w (stream_events s (es ++ run_error m ∷ []) t w)
  unfolding stream_events persist_on_error
  stream_Failed m [] t w n =
      subst
        (λ o. Failed m w (
          go_on s
            (λ t2.
              sent_before s (client_facing_error s (run_error m))
                (some ([], t2, on_error s t2 m w)))
            o))
        (sym (observed_error (persists s s.store) t m)) refl
  stream_Failed m (e ∷ es) t w n =
      go_Failed m w
        (λ t2.
          sent_before s (client_facing_error s e)
            (stream_events s (es ++ run_error m ∷ []) t2 (persist_on_error s t2 e w)))
        (observed s (persists s s.store) t e)
        (λ t2.
          sent_Failed m w (client_facing_error s e)
            (stream_events s (es ++ run_error m ∷ []) t2 (persist_on_error s t2 e w))
            (subst
              (λ z.
                Failed m z
                  (stream_events s (es ++ run_error m ∷ []) t2 (persist_on_error s t2 e w)))
              (no_effect e t2 w n.0) (stream_Failed m es t2 (persist_on_error s t2 e w) n.1)))

  pub deltas-append :
      (k : String) (es : List Event) (m : Text) → deltas k (es ++ run_error m ∷ []) ≡ deltas k es
  deltas-append k [] m = refl
  deltas-append k (e ∷ es) m = ap (λ l. delta_of k e ++ l) (deltas-append k es m)

  pub sent_append :
      (es : List Event) (e : Event)
      → map (client_facing_error s) (es ++ e ∷ [])
        ≡ map (client_facing_error s) es ++ client_facing_error s e ∷ []
  sent_append [] e = refl
  sent_append (x ∷ es) e = ap (λ l. client_facing_error s x ∷ l) (sent_append es e)

  -- A run of a persisting session, whose one error is its last event and whose stream does not
  -- raise, leaves two things in this order: the conversation saved as the prior messages and the
  -- transcript's, and an audit event of this run whose error is the unredacted message. The client
  -- is sent the events before it, and the error as it may see it; and what was saved of the run
  -- holds the text that the client was sent.
  pub stream_events-on_error :
      (message : Text) (es out : List Event) (t : RunTranscript) (w w2 : World) (k : String)
      → persists s s.store ≡ true
      → All NotError es
      → stream_events s (es ++ run_error message ∷ []) init w ≡ some (out, t, w2)
      → (w2
          ≡ s.record_audit
              (record {
                run_id = s.run_id;
                thread_id = s.thread_id;
                error = codes "run failed: " ++ message;
                ip_address = s.remote_addr;
              })
              (save_messages s (prior_messages s ++ messages t) w))
        × (out ≡ map (client_facing_error s) es ++ client_facing_error s (run_error message) ∷ [])
        × (answer_text k (messages t) ≡ deltas k out)
  unfolding on_error finalize
  stream_events-on_error message es out t w w2 k p n h =
      let r = stream_events-observe (es ++ run_error message ∷ []) out t w w2 k p h in
      (
        subst (λ o. Failed message w o) h (stream_Failed message es init w n),
        r.0 ∙ sent_append es (run_error message),
        r.1,
      )
