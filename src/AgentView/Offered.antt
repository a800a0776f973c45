-- ===== src/AgentView/Offered.antt =====
-- That no name is offered twice (django_ag_ui/agent/agui_view.py).
use django_ag_ui.Base.{String, List, false, [], ◌++◌, ◌≡◌, contains, All}
use django_ag_ui.AgentView.ToolNames.{
  Tools, names_of, mcp_toolsets, attachment_toolsets, client_context_toolset, own_names,
}

module _ (t : Tools) where
  abbrev mcp_names : List String
  unfolding mcp_toolsets
  mcp_names = (mcp_toolsets t.mcp_server t.registry).0

  abbrev attachment_names : List String
  unfolding attachment_toolsets mcp_toolsets
  attachment_names =
      attachment_toolsets t.attachments
        ((mcp_toolsets t.mcp_server t.registry).1 ++ names_of t.service_specs)

  -- The names that the sources other than the view's own hold.
  abbrev source_names : List String
  source_names =
      t.registry
      ++ (names_of t.mcp_server
          ++ (names_of t.service_specs ++ attachment_toolsets t.attachments []))

  -- The names that are offered whatever the other sources hold: the view's own, and the client
  -- context's.
  abbrev pub taken_as_given : List String
  taken_as_given = own_names t ++ client_context_toolset t.client_context

  -- They are names of no other source.
  abbrev pub Unclaimed : Type 0
  Unclaimed = All (λ k. contains source_names k ≡ false) taken_as_given
