-- ===== src/AgentView/ModelTests.antt =====
-- Two endpoints of django_ag_ui/agent/agui_view.py: one with a configured model, and one with a hook
-- for the model alone.
use django_ag_ui.Base.{ℕ, suc, Option, none, some, [], ◌∷◌, ◌≡◌, refl, inr, inl}
use django_ag_ui.AgentView.Models.{
  ModelValue, name, instance_of, improperly_configured, HttpRequest, Endpoint, Start, new_view,
  serve, run_model, hooked,
}
use django_ag_ui.AgentView.Reuse.{hook_alone_fails}

-- Models, agents and loggers are numbers here, and the world is how many agents were made: each
-- agent is another one.
abbrev Small : Type 0
Small = Endpoint ℕ ℕ ℕ ℕ ℕ ℕ ℕ ℕ ℕ

abbrev endpoint : Option (ModelValue ℕ) → Option (HttpRequest ℕ → Option (ModelValue ℕ)) → Small
endpoint config_model hook = record {
  model = none;
  config_model = config_model;
  api_key = none;
  provider = none;
  model_for_request = hook;
  instructions = none;
  system_prompt = none;
  instructions_for_request = none;
  audit_logger = none;
  toolsets = none;
  capabilities = none;
  spec_capabilities = [];
  agent_factory = none;
  step_store = none;
  deps_factory = none;
  build_model = λ s key provider. 3;
  build_agent = λ c w. (w, suc w);
  null_audit_logger = 0;
  default_system_prompt = "Help.";
}

abbrev configured : Small
configured = endpoint (some (name "test")) none

abbrev tenant_model : HttpRequest ℕ → Option (ModelValue ℕ)
tenant_model r = some (instance_of 4)

abbrev hooked_only : Small
hooked_only = endpoint none (some tenant_model)

abbrev first : Start ℕ
first = record {
  request = record { user = some 1; remote_addr = none };
  run_id = "r1";
  resume_from = none;
}

hook_alone_fails_example :
    (new_view hooked_only ≡ inr none)
    × (serve hooked_only (first ∷ []) none 8 ≡ (inl improperly_configured ∷ [], 8))
    × (run_model hooked_only (some tenant_model) (first.request) ∷ []
        ≡ hooked hooked_only (some (instance_of 4)) ∷ [])
hook_alone_fails_example =
    hook_alone_fails hooked_only tenant_model refl (refl, refl) refl (first ∷ []) 8
