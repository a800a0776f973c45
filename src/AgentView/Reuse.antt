-- ===== src/AgentView/Reuse.antt =====
-- That the runs of one view share one agent, and when there is none
-- (django_ag_ui/agent/agui_view.py).
use django_ag_ui.Base.{
  List, Option, none, some, [], ◌∷◌, ◌≡◌, ◌≢◌, refl, sym, ap, ◌∙◌, ◌⊎◌, inl, inr, map,
}
use django_ag_ui.AgentView.Models.{
  ModelValue, Error, improperly_configured, HttpRequest, Endpoint, Given, Start, resolved,
  own_or_configured, resolve_model, resolve_model_value, require_a_model, unless_refused, new_view,
  agent_config, built_with, from_factory, new_agent, kept, agent, hooked, run_model, given, opened,
  open_session, serve,
}

module _ {M P A T C L S U W : Type 0} (e : Endpoint M P A T C L S U W) where
  -- The model of the endpoint: the view's own, or else that of its configuration.
  abbrev Chosen : ModelValue M → Type 0
  Chosen m = (e.model ≡ some m) ⊎ ((e.model ≡ none) × (e.config_model ≡ some m))

  -- What makes the agent of the endpoint: the factory, or `build_agent` with the model of the
  -- endpoint.
  abbrev MakerOf : (W → A × W) → Type 0
  MakerOf make =
      (e.agent_factory ≡ some make)
      ⊎ ((e.agent_factory ≡ none)
          × ((m : ModelValue M) × Chosen m
              × (make ≡ e.build_agent (agent_config e (resolve_model_value e m)))))

  abbrev Unset : Type 0
  Unset = (e.model ≡ none) × (e.config_model ≡ none)

  -- The world after an agent was made for the first of some runs, and not again.
  abbrev pub once : (W → A × W) → List (Start U) → W → W
  once make [] w = w
  once make (s ∷ ss) w = (make w).1

  -- Runs that all have one agent.
  abbrev all_given : A → List (Start U) → List (Error ⊎ Given M A L S U)
  all_given a ss = map (λ s. inr (given e a s)) ss

  abbrev all_failed : List (Start U) → List (Error ⊎ Given M A L S U)
  all_failed ss = map (λ s. inl improperly_configured) ss

  serve-failing :
      new_agent e ≡ inl improperly_configured
      → (ss : List (Start U)) (w : W) → serve e ss none w ≡ (all_failed ss, w)
  unfolding serve open_session agent opened kept
  serve-failing h [] w = refl
  serve-failing h (s ∷ ss) w =
      ap
        (λ x.
          let o = opened e s (kept e x w) in
          let later = serve e ss o.1 o.2 in (o.0 ∷ later.0, later.1))
        h
      ∙ ap (λ r. (inl improperly_configured ∷ r.0, r.1)) (serve-failing h ss w)

  -- What building the agent comes to.
  BuiltAs : Error ⊎ (W → A × W) → Type 0
  BuiltAs (inr make) = MakerOf make
  BuiltAs (inl x) = (e.agent_factory ≡ none) × Unset × (x ≡ improperly_configured)

  unset_resolved :
      (o : Option (ModelValue M))
      → Unset
      → e.model ≡ o
      → resolved e (own_or_configured e o) ≡ inl improperly_configured
  unfolding own_or_configured resolved
  unset_resolved none u h = ap (resolved e) u.1
  unset_resolved (some m) u h = let clash : none ≡ some m = sym u.0 ∙ h in cc clash

  unset-resolve_model : Unset → resolve_model e ≡ inl improperly_configured
  unfolding resolve_model
  unset-resolve_model u = unset_resolved e.model u refl

  -- A view that the constructor does not ask for a model.
  abbrev Exempt : Type 0
  Exempt = (e.agent_factory ≡ none) × Unset × (e.model_for_request ≢ none)

  -- The runs of a view and the world after them: all with the one agent of its endpoint, which is
  -- made once, or none at all.
  abbrev pub Served : List (Start U) → W → List (Error ⊎ Given M A L S U) × W → Type 0
  Served ss w r =
      ((make : W → A × W) × MakerOf make × (r ≡ (all_given (make w).0 ss, once make ss w)))
      ⊎ (Exempt × (r ≡ (all_failed ss, w)))

  hook_built :
      (f : Option (W → A × W)) → f ≡ none → Unset → from_factory e f ≡ inl improperly_configured
  unfolding from_factory built_with
  hook_built none p u = ap (built_with e) (unset-resolve_model u)
  hook_built (some a) p u = cc p

  hook_allows :
      (f : Option (W → A × W)) (k : Option (HttpRequest U → Option (ModelValue M)))
      (hook : HttpRequest U → Option (ModelValue M))
      → f ≡ none
      → k ≡ some hook
      → require_a_model e f k ≡ none
  unfolding require_a_model
  hook_allows none (some k) hook p q = refl
  hook_allows none none hook p q = cc q
  hook_allows (some a) k hook p q = refl

  -- A view that is given a hook for the model, and no model, configured one or factory, is
  -- constructed, and then every run fails and no agent is made, though the hook gives each its model.
  pub hook_alone_fails :
      (hook : HttpRequest U → Option (ModelValue M))
      → e.agent_factory ≡ none
      → Unset
      → e.model_for_request ≡ some hook
      → (ss : List (Start U)) (w : W)
      → (new_view e ≡ inr none)
        × (serve e ss none w ≡ (all_failed ss, w))
        × (map (λ s. run_model e e.model_for_request s.request) ss
            ≡ map (λ s. hooked e (hook s.request)) ss)
  unfolding new_view new_agent unless_refused run_model
  hook_alone_fails hook p u q ss w = (
    ap (unless_refused e) (hook_allows e.agent_factory e.model_for_request hook p q),
    serve-failing (hook_built e.agent_factory p u) ss w,
    ap (λ k. map (λ s. run_model e k s.request) ss) q,
  )
