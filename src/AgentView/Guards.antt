-- ===== src/AgentView/Guards.antt =====
-- Which requests start a run, and what a refused one leaves alone
-- (django_ag_ui/agent/agui_view.py).
use django_ag_ui.Base.{
  ℕ, String, Option, false, none, some, ◌≡◌, ◌≢◌, ◌∷◌, [], subst, sym, eq_iff, ◌⊎◌, inl, inr, ◌==◌,
  Bool-cases, refl, ap,
}
use django_ag_ui.Http.{Method}
use django_ag_ui.AgentView.{
  RunInput, Request, View, Session, Response, Response.stream, load_resume_history, source_messages,
  would_overwrite_another_thread, from_history, started, parsed, limited, throttled, by_method,
  unless_denied, call, thread_exists,
}

module _ {World History Row : Type 0} (v : View World History Row) (request : Request) where
  -- The run's thread is unknown or the one written, or the one written does not exist yet.
  abbrev KeepsThread : Option String → String → World → Type 0
  KeepsThread source thread_id w =
      (source ≡ none)
      ⊎ (source ≡ some thread_id)
      ⊎ (thread_exists v request v.conversation_store thread_id w ≡ false)

  -- The session is one that the view may open: a fresh one, or one that resumes a run which was
  -- found and which writes its own thread or one that does not exist yet.
  abbrev Resumes : Option String → World → Session History → Type 0
  Resumes none w s = (s.message_history ≡ none) × (s.source_messages ≡ none)
  Resumes (some run) w s =
      (history : History) × (source : Option String) × (load_resume_history v request run w
        ≡ some (history, source))
      × KeepsThread source s.run_input.thread_id w
      × (s.message_history ≡ some history)
      × (s.source_messages ≡ source_messages v request source w)

  keeps_thread :
      (source : Option String) (thread_id : String) (w : World)
      → would_overwrite_another_thread v request source thread_id w ≡ false
      → KeepsThread source thread_id w
  unfolding would_overwrite_another_thread
  keeps_thread none thread_id w h = inl refl
  keeps_thread (some source) thread_id w h = elim (Bool-cases (source == thread_id)) [
    | inl t ↦ inr (inl (ap some ((eq_iff source thread_id).0 t)))
    | inr t ↦ inr (inr (rw t at h))
  ]

  -- The request is allowed, is a POST within the limit, and its body is a run input.
  abbrev pub Admitted : Option String → World → World → Session History → Type 0
  Admitted resume_from w w' s =
      (v.authorize request w ≡ none)
      × (request.method ≡ Method.post)
      × (throttled v request v.throttle w ≡ (none, w'))
      × (v.build_run_input request.body ≡ inr s.run_input)
      × Resumes resume_from w' s

  Opened : RunInput → World → Option String → Session History → Type 0
  Opened input w resume_from s = (input ≡ s.run_input) × Resumes resume_from w s

  from_history_opens :
      (input : RunInput) (run : String) (w : World) (o : Option (History × Option String))
      (s : Session History)
      → load_resume_history v request run w ≡ o
      → from_history v request input run w o ≡ stream s
      → Opened input w (some run) s
  unfolding from_history Opened
  from_history_opens input run w none s e h = cc h
  from_history_opens input run w (some (history, source)) s e h =
      elim (Bool-cases (would_overwrite_another_thread v request source input.thread_id w)) [
        | inl t ↦
            let g : Response.would_overwrite run input.thread_id ≡ stream s = rw t at h in cc g
        | inr t ↦
            let g : stream (record {
              run_input = input;
              message_history = some history;
              source_messages = source_messages v request source w;
            })
                ≡ stream s =
              rw t at h in
            let q : record {
              run_input = input;
              message_history = some history;
              source_messages = source_messages v request source w;
            }
                ≡ s =
              cc g in
            subst (λ z. Opened input w (some run) z) q
              (refl, (history, source, e, keeps_thread source input.thread_id w t, refl, refl))
      ]

  started_opens :
      (input : RunInput) (w : World) (resume_from : Option String) (s : Session History)
      → started v request input w resume_from ≡ stream s
      → Opened input w resume_from s
  unfolding started Opened
  started_opens input w none s h =
      let q : record { run_input = input; message_history = none; source_messages = none } ≡ s =
        cc h in
      subst (λ z. Opened input w none z) q (refl, (refl, refl))
  started_opens input w (some run) s h =
      from_history_opens input run w (load_resume_history v request run w) s refl h

  parsed_opens :
      (resume_from : Option String) (w : World) (p : ℕ ⊎ RunInput) (s : Session History)
      → parsed v request resume_from w p ≡ stream s
      → (p ≡ inr s.run_input) × Resumes resume_from w s
  unfolding parsed Opened
  parsed_opens resume_from w (inl n) s h = cc h
  parsed_opens resume_from w (inr input) s h =
      let o = started_opens input w resume_from s h in (ap inr o.0, o.1)

  limited_opens :
      (resume_from : Option String) (p : Option ℕ × World) (w' : World) (s : Session History)
      → limited v request resume_from p ≡ (stream s, w')
      → (p ≡ (none, w'))
        × (v.build_run_input request.body ≡ inr s.run_input)
        × Resumes resume_from w' s
  unfolding limited
  limited_opens resume_from (some n, w) w' s h =
      let g : Response.rate_limited n ≡ stream s = ap (λ z. z.0) h in cc g
  limited_opens resume_from (none, w) w' s h =
      let o = parsed_opens resume_from w (v.build_run_input request.body) s (ap (λ z. z.0) h) in
      let e : w ≡ w' = ap (λ z. z.1) h in
      subst
        (λ z.
          (◌≡◌ {A = Option ℕ × World} (none, w) (none, z))
          × (v.build_run_input request.body ≡ inr s.run_input)
          × Resumes resume_from z s)
        e (refl, o.0, o.1)

  by_method_opens :
      (resume_from : Option String) (w w' : World) (m : Method) (s : Session History)
      → by_method v request resume_from m w ≡ (stream s, w')
      → (m ≡ Method.post)
        × (throttled v request v.throttle w ≡ (none, w'))
        × (v.build_run_input request.body ≡ inr s.run_input)
        × Resumes resume_from w' s
  unfolding by_method
  by_method_opens resume_from w w' Method.post s h =
      let o = limited_opens resume_from (throttled v request v.throttle w) w' s h in
      (refl, o.0, o.1, o.2)
  by_method_opens resume_from w w' m s h =
      let g : Response.not_allowed (Method.post ∷ []) ≡ stream s = ap (λ z. z.0) h in cc g

  unless_denied_opens :
      (resume_from : Option String) (w w' : World) (o : Option ℕ) (s : Session History)
      → unless_denied v request resume_from w o ≡ (stream s, w')
      → (o ≡ none) × (by_method v request resume_from request.method w ≡ (stream s, w'))
  unfolding unless_denied
  unless_denied_opens resume_from w w' (some n) s h =
      let g : Response.auth_error n ≡ stream s = ap (λ z. z.0) h in cc g
  unless_denied_opens resume_from w w' none s h = (refl, h)

  limited_charges :
      (resume_from : Option String) (p : Option ℕ × World)
      → (limited v request resume_from p).1 ≡ p.1
  unfolding limited
  limited_charges resume_from (none, w) = refl
  limited_charges resume_from (some n, w) = refl

  other_charges :
      (resume_from : Option String) (w : World) (m : Method)
      → m ≢ Method.post
      → (by_method v request resume_from m w).1 ≡ w
  unfolding by_method
  other_charges resume_from w Method.post n = absurd (n refl)
  other_charges resume_from w _ n = refl

  post_charges :
      (resume_from : Option String) (w : World) (m : Method)
      → m ≡ Method.post
      → (by_method v request resume_from m w).1 ≡ (throttled v request v.throttle w).1
  unfolding by_method
  post_charges resume_from w m e =
      subst (λ z. (by_method v request resume_from z w).1 ≡ (throttled v request v.throttle w).1)
        (sym e) (limited_charges resume_from (throttled v request v.throttle w))

  -- A request that is answered by a stream is allowed, is a POST within the limit, and has a body
  -- that parses to the run input of the session; and a session that resumes a run holds the
  -- history found for that run, whose own thread is the one it writes unless that one does not
  -- exist or the run's thread is unknown.
  pub call-Admitted :
      (resume_from : Option String) (w w' : World) (s : Session History)
      → call v request resume_from w ≡ (stream s, w')
      → Admitted resume_from w w' s
  unfolding call
  call-Admitted resume_from w w' s h =
      let a = unless_denied_opens resume_from w w' (v.authorize request w) s h in
      let b = by_method_opens resume_from w w' request.method s a.1 in (a.0, b.0, b.1, b.2, b.3)

  -- The world after a request that is denied or not, by its method.
  abbrev pub charged : Option ℕ → Method → World → World
  unfolding throttled
  charged (some code) m w = w
  charged none Method.post w = (throttled v request v.throttle w).1
  charged none m w = w

  method_charges :
      (resume_from : Option String) (w : World) (m : Method)
      → (by_method v request resume_from m w).1 ≡ charged none m w
  unfolding charged
  method_charges resume_from w Method.post = post_charges resume_from w Method.post refl
  method_charges resume_from w Method.get = other_charges resume_from w Method.get (λ e. cc e)
  method_charges resume_from w Method.patch = other_charges resume_from w Method.patch (λ e. cc e)
  method_charges resume_from w Method.delete = other_charges resume_from w Method.delete (λ e. cc e)
  method_charges resume_from w Method.other_method =
      other_charges resume_from w Method.other_method (λ e. cc e)

  denied_charges :
      (resume_from : Option String) (w : World) (o : Option ℕ)
      → v.authorize request w ≡ o
      → (call v request resume_from w).1 ≡ charged o request.method w
  unfolding call unless_denied charged
  denied_charges resume_from w (some code) e = rw e refl
  denied_charges resume_from w none e = rw e (method_charges resume_from w request.method)

  -- The throttle is charged exactly by an allowed POST: any other request leaves the world as it
  -- is, and an allowed POST leaves it as the throttle does, whatever the answer is.
  pub call_charges :
      (resume_from : Option String) (w : World)
      → (call v request resume_from w).1 ≡ charged (v.authorize request w) request.method w
  call_charges resume_from w = denied_charges resume_from w (v.authorize request w) refl
