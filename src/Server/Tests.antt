-- ===== src/Server/Tests.antt =====
-- One server over a mapping of specs, a registry and a bridged server
-- (django_ag_ui/agent/agui_server.py).
use django_ag_ui.Base.{Bool, true, false, none, some, [], ◌∷◌, ◌≡◌, refl, inl}
use django_ag_ui.Server.Settings.{
  a_sequence, an_object, check_removed_settings, check_no_dotted_paths,
}
use django_ag_ui.Server.Specs.{
  mapping, toolset, reject_spec_name_collisions, clashing, claimed, collisions,
}
use django_ag_ui.Server.{Arguments, Server, new_server}

-- A spec is whether it declares permissions.
abbrev arguments : Arguments Bool
arguments = record {
  settings = "MODEL" ∷ [];
  collaborators = ("toolsets", a_sequence (false ∷ [])) ∷ ("provider", an_object) ∷ [];
  registry = record { name = "search"; confirm = some "Search?" } ∷ [];
  approval_prompts = ("order", "Order?") ∷ [];
  mcp_server = some ("search" ∷ "order" ∷ []);
  toolsets = some ("weather" ∷ []);
  capabilities = none;
  service_specs = mapping (("order", true) ∷ ("ship", true) ∷ []);
  step_store = true;
  skills = false;
  conversation_store = true;
  attachment_store = true;
  transcription_backend = false;
}

abbrev server : Server Bool
server = record {
  registry = record { name = "search"; confirm = some "Search?" } ∷ [];
  approval_prompts = ("search", "Search?") ∷ ("order", "Order?") ∷ [];
  mcp_server = some ("search" ∷ "order" ∷ []);
  toolsets = some ("weather" ∷ []);
  capabilities = none;
  service_specs = some (("order", true) ∷ ("ship", true) ∷ []);
  spec_capability = false;
  spec_source = false;
  step_store = true;
  skills = false;
  conversation_store = true;
  attachment_store = true;
  transcription_backend = false;
}

-- The same specs as a pre-built toolset collide with the bridged server.
is_refused :
    new_server
      (λ b. some b)
      (record arguments { service_specs = toolset (("order", true) ∷ ("ship", true) ∷ []) })
    ≡ inl (collisions (("order", "the bridged MCP server") ∷ []))
unfolding new_server check_removed_settings check_no_dotted_paths reject_spec_name_collisions
    clashing claimed
is_refused = refl
