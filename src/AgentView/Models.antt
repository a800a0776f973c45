-- ===== src/AgentView/Models.antt =====
-- Which model, instructions and agent a run is given: `_require_a_model`, `_resolve_model`, `_agent`
-- and what `__call__` hands to `AgentSession` besides the input, in
-- django_ag_ui/agent/agui_view.py. `build_model`, `build_agent` and the hooks are parameters.
use django_ag_ui.Base.{
  String, List, Option, none, some, [], ◌∷◌, ◌++◌, ◌⊎◌, inl, inr, ◌==◌, if◌then◌else◌,
}

-- A `"provider:name"` string or a pre-built `Model`.
pub data ModelValue (M : Type 0) : Type 0 where
  name : String → ModelValue M
  instance_of : M → ModelValue M

pub data Error : Type 0 where
  improperly_configured : Error

pub record HttpRequest (U : Type 0) : Type 0 where
  pub user : Option U
  pub remote_addr : Option String

-- `AgentDeps`, whose call context holds the request.
pub record Deps (U : Type 0) : Type 0 where
  pub user : Option U
  pub ip_address : Option String
  pub request : HttpRequest U

-- The fields of `AgentConfig` that are not the configuration's own.
pub record AgentConfig (M T C L : Type 0) : Type 0 where
  pub model : ModelValue M
  pub instructions : Option String
  pub audit_logger : L
  pub toolsets : List T
  pub capabilities : List C

-- `StepPersistence`
pub record Persistence (S : Type 0) : Type 0 where
  pub store : S
  pub run_id : String
  pub parent_run_id : Option String

-- What the constructor of `DjangoAGUIView` keeps. `config_model`, `api_key` and `system_prompt` are
-- of its configuration, what `agent_factory` and `build_agent` give depends
-- on the world, which they change; `spec_capabilities` is what `_spec_capabilities` gives.
pub record Endpoint (M P A T C L S U W : Type 0) : Type 0 where
  pub model : Option (ModelValue M)
  pub config_model : Option (ModelValue M)
  pub api_key : Option String
  pub provider : Option P
  pub model_for_request : Option (HttpRequest U → Option (ModelValue M))
  pub instructions : Option String
  pub system_prompt : Option String
  pub instructions_for_request : Option (HttpRequest U → String)
  pub audit_logger : Option L
  pub toolsets : Option (List T)
  pub capabilities : Option (List C)
  pub spec_capabilities : List C
  pub agent_factory : Option (W → A × W)
  pub step_store : Option (HttpRequest U → S)
  pub deps_factory : Option (HttpRequest U → Deps U)
  pub build_model : String → Option String → Option P → M
  pub build_agent : AgentConfig M T C L → W → A × W
  pub null_audit_logger : L
  pub default_system_prompt : String

-- What a run is given.
pub record Given (M A L S U : Type 0) : Type 0 where
  pub agent : A
  pub model : Option (ModelValue M)
  pub instructions : String
  pub capabilities : List (Persistence S)
  deps : Deps U
  pub audit_logger : L

-- A request for a run: the HTTP request, the id of the run and that of the run it resumes.
pub record Start (U : Type 0) : Type 0 where
  pub request : HttpRequest U
  pub run_id : String
  pub resume_from : Option String

abbrev or_default : {A : Type 0} → Option A → A → A
or_default none a = a
or_default (some b) a = b

-- `config.system_prompt or DEFAULT_SYSTEM_PROMPT`: an empty prompt is none.
abbrev or_prompt : Option String → String → String
or_prompt none d = d
or_prompt (some s) d = if s == "" then d else s

module _ {M P A T C L S U W : Type 0} (e : Endpoint M P A T C L S U W) where
  -- `_resolve_model_value`
  unfoldable with_credentials : Option String → Option P → ModelValue M → ModelValue M
  with_credentials none none m = m
  with_credentials api_key provider (name s) = instance_of (e.build_model s api_key provider)
  with_credentials api_key provider (instance_of m) = instance_of m

  unfoldable pub resolve_model_value : ModelValue M → ModelValue M
  unfolding with_credentials
  resolve_model_value m = with_credentials e.api_key e.provider m

  unfoldable pub resolved : Option (ModelValue M) → Error ⊎ ModelValue M
  unfolding resolve_model_value
  resolved none = inl improperly_configured
  resolved (some m) = inr (resolve_model_value m)

  unfoldable pub own_or_configured : Option (ModelValue M) → Option (ModelValue M)
  own_or_configured none = e.config_model
  own_or_configured (some m) = some m

  -- `_resolve_model`
  unfoldable pub resolve_model : Error ⊎ ModelValue M
  unfolding resolved own_or_configured
  resolve_model = resolved (own_or_configured e.model)

  unfoldable pub refused : Error ⊎ ModelValue M → Option Error
  refused (inl x) = some x
  refused (inr m) = none

  -- `_require_a_model`: the error it raises.
  unfoldable pub require_a_model :
      Option (W → A × W) → Option (HttpRequest U → Option (ModelValue M)) → Option Error
  unfolding refused
  require_a_model (some a) hook = none
  require_a_model none (some hook) = none
  require_a_model none none = refused resolve_model

  unfoldable pub unless_refused : Option Error → Error ⊎ Option A
  unless_refused (some x) = inl x
  unless_refused none = inr none

  -- `DjangoAGUIView.__init__`: a view has no agent yet.
  unfoldable pub new_view : Error ⊎ Option A
  unfolding unless_refused require_a_model
  new_view = unless_refused (require_a_model e.agent_factory e.model_for_request)

  -- `_resolve_audit_logger`
  unfoldable resolve_audit_logger : L
  resolve_audit_logger = or_default e.audit_logger e.null_audit_logger

  unfoldable pub agent_config : ModelValue M → AgentConfig M T C L
  unfolding resolve_audit_logger
  agent_config m = record {
    model = m;
    instructions = none;
    audit_logger = resolve_audit_logger;
    toolsets = or_default e.toolsets [];
    capabilities = or_default e.capabilities [] ++ e.spec_capabilities;
  }

  unfoldable pub built_with : Error ⊎ ModelValue M → Error ⊎ (W → A × W)
  unfolding agent_config
  built_with (inl x) = inl x
  built_with (inr m) = inr (e.build_agent (agent_config m))

  unfoldable pub from_factory : Option (W → A × W) → Error ⊎ (W → A × W)
  unfolding built_with
  from_factory (some make) = inr make
  from_factory none = built_with resolve_model

  -- `_build_agent`: what makes the agent.
  unfoldable pub new_agent : Error ⊎ (W → A × W)
  unfolding from_factory
  new_agent = from_factory e.agent_factory

  held : A × W → (Error ⊎ A) × Option A × W
  held p = (inr p.0, some p.0, p.1)

  unfoldable pub kept : Error ⊎ (W → A × W) → W → (Error ⊎ A) × Option A × W
  unfolding held
  kept (inl x) w = (inl x, none, w)
  kept (inr make) w = held (make w)

  -- `_agent`: the agent, with `_built_agent` and the world before and after.
  unfoldable pub agent : Option A → W → (Error ⊎ A) × Option A × W
  unfolding kept
  agent none w = kept new_agent w
  agent (some a) w = (inr a, some a, w)

  -- `_run_model`
  unfoldable pub hooked : Option (ModelValue M) → Option (ModelValue M)
  hooked none = none
  hooked (some m) = some (resolve_model_value m)

  unfoldable pub run_model :
      Option (HttpRequest U → Option (ModelValue M)) → HttpRequest U → Option (ModelValue M)
  unfolding hooked
  run_model none r = none
  run_model (some hook) r = hooked (hook r)

  -- `_run_instructions` and `_resolve_instructions`
  unfoldable run_instructions : Option (HttpRequest U → String) → HttpRequest U → String
  run_instructions (some hook) r = hook r
  run_instructions none r =
      or_default e.instructions (or_prompt e.system_prompt e.default_system_prompt)

  -- `_step_persistence_capabilities`
  unfoldable step_persistence : Option (HttpRequest U → S) → Start U → List (Persistence S)
  step_persistence none s = []
  step_persistence (some store) s =
      record { store = store s.request; run_id = s.run_id; parent_run_id = s.resume_from } ∷ []

  -- `_build_deps`
  unfoldable build_deps : Option (HttpRequest U → Deps U) → HttpRequest U → Deps U
  build_deps (some factory) r = factory r
  build_deps none r = record { user = r.user; ip_address = r.remote_addr; request = r }

  -- What `__call__` gives the session of a run.
  unfoldable pub given : A → Start U → Given M A L S U
  unfolding run_model run_instructions step_persistence build_deps resolve_audit_logger
  given a s = record {
    agent = a;
    model = run_model e.model_for_request s.request;
    instructions = run_instructions e.instructions_for_request s.request;
    capabilities = step_persistence e.step_store s;
    deps = build_deps e.deps_factory s.request;
    audit_logger = resolve_audit_logger;
  }

  unfoldable pub opened :
      Start U → (Error ⊎ A) × Option A × W → (Error ⊎ Given M A L S U) × Option A × W
  unfolding given
  opened s (inl x, built, w) = (inl x, built, w)
  opened s (inr a, built, w) = (inr (given a s), built, w)

  unfoldable pub open_session : Start U → Option A → W → (Error ⊎ Given M A L S U) × Option A × W
  unfolding opened agent
  open_session s built w = opened s (agent built w)

  -- The requests that one view serves, in the order in which they reach `_agent`.
  unfoldable pub serve : List (Start U) → Option A → W → List (Error ⊎ Given M A L S U) × W
  unfolding open_session
  serve [] built w = ([], w)
  serve (s ∷ rest) built w =
      let o = open_session s built w in let later = serve rest o.1 o.2 in (o.0 ∷ later.0, later.1)
