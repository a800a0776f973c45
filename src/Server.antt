-- ===== src/Server.antt =====
-- django_ag_ui/agent/agui_server.py: what a server is built from, what it refuses to be built from,
-- and the routes it serves. What the kernel's `kernel_spec` says of a spec is a parameter.
pub mod Settings
pub mod Specs
pub mod Prompts
pub mod Refusals
pub mod Routes
mod Tests
use django_ag_ui.Base.{
  String, Text, List, Option, Bool, true, false, none, some, [], ◌∷◌, ◌++◌, ◌⊎◌, inl, inr, is_empty,
  if◌then◌else◌,
}
use django_ag_ui.Base.Dict.{Dict, lookup, insert}
use django_ag_ui.AgentView.ToolNames.{Tools}
use django_ag_ui.Server.Specs.{
  Binding, ServiceSpecs, Resolved, resolve_spec_source, keys, binding_names, claimed_by,
  set_default, also_claimed_by, claimed, clash, clashing, specs_of, Refused, unguarded_next,
  unguarded_specs, refused_unguarded, reject_unguarded_specs, refused_clashing,
  reject_spec_name_collisions, specs_refused, unread_settings, dotted_paths,
}
use django_ag_ui.Server.Prompts.{with_registry_prompts}
use django_ag_ui.Server.Settings.{Collaborator, check_removed_settings, check_no_dotted_paths}

-- The arguments of `__init__` and the keys of `DJANGO_AG_UI`. The flags say of the collaborators
-- whether they are given, and of the stores and the backend whether they are other than the null
-- ones; `mcp_server`, `toolsets` and `capabilities` hold the names of their tools.
pub record Arguments (Spec : Type 0) : Type 0 where
  pub settings : List String
  pub collaborators : List (String × Collaborator)
  pub registry : List Binding
  pub approval_prompts : Dict String
  pub mcp_server : Option (List String)
  pub toolsets : Option (List String)
  pub capabilities : Option (List String)
  pub service_specs : ServiceSpecs Spec
  pub step_store : Bool
  pub skills : Bool
  pub conversation_store : Bool
  pub attachment_store : Bool
  pub transcription_backend : Bool

-- `AGUIServer`
pub record Server (Spec : Type 0) : Type 0 where
  pub registry : List Binding
  pub approval_prompts : Dict String
  pub mcp_server : Option (List String)
  pub toolsets : Option (List String)
  pub capabilities : Option (List String)
  pub service_specs : Option (Dict Spec)
  pub spec_capability : Bool
  pub spec_source : Bool
  pub step_store : Bool
  pub skills : Bool
  pub conversation_store : Bool
  pub attachment_store : Bool
  pub transcription_backend : Bool

module _ {Spec : Type 0} (permissions : Spec → Option Bool) where
  abbrev pub unless_refused : Option Refused → Server Spec → Refused ⊎ Server Spec
  unless_refused none server = inr server
  unless_refused (some refused) server = inl refused

  abbrev pub built : Arguments Spec → Resolved Spec → Refused ⊎ Server Spec
  unfolding with_registry_prompts specs_refused
  built a r =
      unless_refused
        (specs_refused permissions r.prebuilt (specs_of r.specs) a.registry a.mcp_server)
        (record {
          registry = a.registry;
          approval_prompts = with_registry_prompts a.approval_prompts a.registry;
          mcp_server = a.mcp_server;
          toolsets = a.toolsets;
          capabilities = a.capabilities;
          service_specs = r.specs;
          spec_capability = r.prebuilt;
          spec_source = r.keeps_source;
          step_store = a.step_store;
          skills = a.skills;
          conversation_store = a.conversation_store;
          attachment_store = a.attachment_store;
          transcription_backend = a.transcription_backend;
        })

  abbrev pub after_paths : List String → Arguments Spec → Refused ⊎ Server Spec
  unfolding built
  after_paths [] a = built a (resolve_spec_source a.service_specs)
  after_paths (n ∷ ns) a = inl (dotted_paths (n ∷ ns))

  abbrev pub after_settings : List (String × Text) → Arguments Spec → Refused ⊎ Server Spec
  unfolding after_paths check_no_dotted_paths
  after_settings [] a = after_paths (check_no_dotted_paths a.collaborators) a
  after_settings (s ∷ ss) a = inl (unread_settings (s ∷ ss))

  -- `__init__`
  unfoldable pub new_server : Arguments Spec → Refused ⊎ Server Spec
  unfolding after_settings check_removed_settings
  new_server a = after_settings (check_removed_settings a.settings) a

abbrev pub spec_names : {Spec : Type 0} → Option (Dict Spec) → Option (List String)
spec_names none = none
spec_names (some specs) = some (keys specs)

-- The tools that the server's `DjangoAGUIView` is built with, for a run with or without a block of
-- client context that is delivered as a tool.
abbrev pub tools_of : {Spec : Type 0} → Server Spec → Bool → Tools
tools_of s client_context = record {
  registry = binding_names s.registry;
  mcp_server = s.mcp_server;
  service_specs = spec_names s.service_specs;
  spec_capability = s.spec_capability;
  attachments = s.attachment_store;
  toolsets = s.toolsets;
  capabilities = s.capabilities;
  client_context = client_context;
}
