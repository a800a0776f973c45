-- ===== src/Server/Refusals.antt =====
-- What a server that was built holds: no unread setting, no dotted path, no unguarded spec, and no
-- name that a run is offered twice (django_ag_ui/agent/agui_server.py).
use django_ag_ui.Base.{String, Option, Bool, false, ◌++◌, ◌≡◌}
use django_ag_ui.Base.Dict.{Dict}
use django_ag_ui.AgentView.ToolNames.{names_of}
use django_ag_ui.AgentView.Sources.{Apart}
use django_ag_ui.Server.Settings.{Collaborator, names_a_path}
use django_ag_ui.Server.Specs.{binding_names, specs_of}
use django_ag_ui.Server.Specs.Checked.{GuardedIf}
use django_ag_ui.Server.{Server, spec_names}

module _ {Spec : Type 0} (permissions : Spec → Option Bool) where
  -- What a server was built through.
  abbrev Fit : Server Spec → Type 0
  Fit s =
      GuardedIf permissions s.spec_capability (specs_of s.service_specs)
      × Apart s.spec_capability (spec_names s.service_specs)
          (binding_names s.registry ++ names_of s.mcp_server)

  abbrev Live : String × Collaborator → Type 0
  Live c = names_a_path c.1 ≡ false
