-- ===== src/AgentView/ToolNames.antt =====
-- Which tools a run is offered: `_build_agent`, `_claimed_names`, `_run_toolsets` and the toolsets
-- of django_ag_ui/agent/agui_view.py and `AgentSession._run_toolsets` of agent_session.py, by the
-- names of their tools. A toolset built over a source
-- offers the source's names but for the names it is told to exclude.
use django_ag_ui.Base.{
  String, List, Option, Bool, true, false, none, some, [], ◌∷◌, ◌++◌, not, contains, keep_if,
  if◌then◌else◌,
}

-- The sources of tools that a view is built with, for a view that is given no `agent_factory`,
-- each as the names it holds: the registry, the MCP server, the service specs with whether they
-- come as a pre-built capability, whether an attachment store other than the null one is given, and
-- the view's own toolsets and capabilities; with whether the run has a block of client context that
-- is delivered as a tool.
pub record Tools : Type 0 where
  pub registry : List String
  pub mcp_server : Option (List String)
  pub service_specs : Option (List String)
  pub spec_capability : Bool
  pub attachments : Bool
  pub toolsets : Option (List String)
  pub capabilities : Option (List String)
  pub client_context : Bool

abbrev pub but_for : List String → List String → List String
but_for seen names = keep_if (λ n. not (contains seen n)) names

-- The names of an optional source: `specs or {}`.
abbrev pub names_of : Option (List String) → List String
names_of none = []
names_of (some names) = names

-- `_claimed_names`: the registry's names and those of the MCP server.
unfoldable pub claimed_names : Tools → List String
claimed_names t = t.registry ++ names_of t.mcp_server

-- `_mcp_toolsets`: the names offered, and the names seen after it.
unfoldable pub mcp_toolsets : Option (List String) → List String → List String × List String
mcp_toolsets none seen = ([], seen)
mcp_toolsets (some names) seen = (but_for seen names, seen ++ names)

-- `_spec_capabilities`: a pre-built capability is attached as it is.
unfoldable pub spec_capabilities : Bool → Option (List String) → List String → List String
spec_capabilities true specs seen = names_of specs
spec_capabilities false none seen = []
spec_capabilities false (some specs) seen = but_for seen specs

-- `_attachment_toolsets`
unfoldable pub attachment_toolsets : Bool → List String → List String
attachment_toolsets false seen = []
attachment_toolsets true seen =
    if contains seen "read_attachment" then [] else "read_attachment" ∷ []

-- `_run_toolsets`
unfoldable pub run_toolsets : Tools → List String
unfolding mcp_toolsets attachment_toolsets
run_toolsets t =
    let mcp = mcp_toolsets t.mcp_server t.registry in
    mcp.0 ++ attachment_toolsets t.attachments (mcp.1 ++ names_of t.service_specs)

-- `build_client_context_toolset`, where `AgentSession._run_toolsets` adds it
unfoldable pub client_context_toolset : Bool → List String
client_context_toolset false = []
client_context_toolset true = "get_client_context" ∷ []

-- The tools of the view's own toolsets and capabilities, which are taken as they are.
abbrev pub own_names : Tools → List String
own_names t = names_of t.toolsets ++ names_of t.capabilities

-- The tools of the agent that `_build_agent` makes.
unfoldable pub agent_names : Tools → List String
unfolding spec_capabilities claimed_names
agent_names t =
    t.registry
    ++ (own_names t ++ spec_capabilities t.spec_capability t.service_specs (claimed_names t))

-- The agent's tools, with those of a run.
unfoldable pub offered : Tools → List String
unfolding agent_names run_toolsets client_context_toolset
offered t = agent_names t ++ (run_toolsets t ++ client_context_toolset t.client_context)
