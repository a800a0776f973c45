-- ===== src/Server/Specs.antt =====
-- The specs that a server is given and what it says against them
-- (django_ag_ui/agent/agui_server.py). What the kernel's `kernel_spec` says of a spec is a
-- parameter.
pub mod Checked
use django_ag_ui.Base.{
  String, Text, List, Option, Bool, true, false, none, some, [], ◌∷◌, ◌++◌, ◌⊎◌, inl, inr,
}
use django_ag_ui.Base.Dict.{Dict, lookup, insert}

-- A binding of the registry: its name, and the question it asks before it is called.
pub record Binding : Type 0 where
  pub name : String
  pub confirm : Option String

-- What `service_specs=` is given, by the shapes that `_resolve_spec_source` tells apart, each with
-- the specs it holds.
pub data ServiceSpecs (Spec : Type 0) : Type 0 where
  not_given : ServiceSpecs Spec
  capability : Dict Spec → ServiceSpecs Spec
  source : Dict Spec → ServiceSpecs Spec
  mapping : Dict Spec → ServiceSpecs Spec
  toolset : Dict Spec → ServiceSpecs Spec

-- The mapping, whether there is a pre-built capability, and whether the source is kept.
pub record Resolved (Spec : Type 0) : Type 0 where
  pub specs : Option (Dict Spec)
  pub prebuilt : Bool
  pub keeps_source : Bool

-- `_resolve_spec_source`
abbrev pub resolve_spec_source : {Spec : Type 0} → ServiceSpecs Spec → Resolved Spec
resolve_spec_source not_given = record { specs = none; prebuilt = false; keeps_source = false }
resolve_spec_source (capability specs) = record {
  specs = some specs;
  prebuilt = true;
  keeps_source = false;
}
resolve_spec_source (source specs) = record {
  specs = some specs;
  prebuilt = false;
  keeps_source = true;
}
resolve_spec_source (mapping specs) = record {
  specs = some specs;
  prebuilt = false;
  keeps_source = false;
}
resolve_spec_source (toolset specs) = record {
  specs = some specs;
  prebuilt = true;
  keeps_source = false;
}

abbrev pub keys {ℓ} : {V : Type ℓ} → Dict V → List String
keys [] = []
keys ((k, v) ∷ d) = k ∷ keys d

abbrev pub binding_names : List Binding → List String
binding_names [] = []
binding_names (b ∷ bs) = b.name ∷ binding_names bs

-- The registry's part of `claimed` in `_reject_spec_name_collisions`.
abbrev pub claimed_by : String → List String → Dict String → Dict String
unfolding insert
claimed_by owner [] claimed = claimed
claimed_by owner (n ∷ ns) claimed = claimed_by owner ns (insert n owner claimed)

abbrev pub set_default : Option String → String → String → Dict String → Dict String
unfolding insert
set_default (some known) n owner claimed = claimed
set_default none n owner claimed = insert n owner claimed

-- `claimed.setdefault`, for every tool of the bridged server.
abbrev pub also_claimed_by : String → Option (List String) → Dict String → Dict String
unfolding set_default lookup
also_claimed_by owner none claimed = claimed
also_claimed_by owner (some []) claimed = claimed
also_claimed_by owner (some (n ∷ ns)) claimed =
    also_claimed_by owner (some ns) (set_default (lookup n claimed) n owner claimed)

unfoldable pub claimed : List Binding → Option (List String) → Dict String
unfolding claimed_by also_claimed_by
claimed registry mcp_server =
    also_claimed_by "the bridged MCP server" mcp_server
      (claimed_by "the @tool registry" (binding_names registry) [])

abbrev pub clash : Option String → String → List (String × String) → List (String × String)
clash none name rest = rest
clash (some owner) name rest = (name, owner) ∷ rest

-- `clashing`, each with whose name it is, for the error that sorts them.
unfoldable pub clashing : List String → Dict String → List (String × String)
unfolding lookup
clashing [] owners = []
clashing (n ∷ ns) owners = clash (lookup n owners) n (clashing ns owners)

abbrev pub specs_of : {Spec : Type 0} → Option (Dict Spec) → Dict Spec
specs_of none = []
specs_of (some specs) = specs

-- What raises in `__init__`.
pub data Refused : Type 0 where
  unread_settings : List (String × Text) → Refused
  dotted_paths : List String → Refused
  no_spec : String → Refused
  unguarded : List String → Refused
  collisions : List (String × String) → Refused

-- `permissions` gives `none` where `kernel_spec` raises `TypeError`, and else whether the spec
-- declares permissions.
module _ {Spec : Type 0} (permissions : Spec → Option Bool) where
  abbrev pub unguarded_next : Option Bool → String → String ⊎ List String → String ⊎ List String
  unguarded_next none name rest = inl name
  unguarded_next (some declared) name (inl other) = inl other
  unguarded_next (some true) name (inr names) = inr names
  unguarded_next (some false) name (inr names) = inr (name ∷ names)

  -- The loop of `_reject_unguarded_specs`: the spec it raises `TypeError` for, or `unguarded`.
  unfoldable pub unguarded_specs : Dict Spec → String ⊎ List String
  unguarded_specs [] = inr []
  unguarded_specs ((name, spec) ∷ specs) =
      unguarded_next (permissions spec) name (unguarded_specs specs)

  abbrev pub refused_unguarded : String ⊎ List String → Option Refused
  refused_unguarded (inl name) = some (no_spec name)
  refused_unguarded (inr []) = none
  refused_unguarded (inr (n ∷ ns)) = some (unguarded (n ∷ ns))

  -- `_reject_unguarded_specs`
  unfoldable pub reject_unguarded_specs : Dict Spec → Option Refused
  unfolding unguarded_specs
  reject_unguarded_specs specs = refused_unguarded (unguarded_specs specs)

abbrev pub refused_clashing : List (String × String) → Option Refused
refused_clashing [] = none
refused_clashing (c ∷ cs) = some (collisions (c ∷ cs))

-- `_reject_spec_name_collisions`
unfoldable pub reject_spec_name_collisions :
    List String → List Binding → Option (List String) → Option Refused
unfolding clashing claimed
reject_spec_name_collisions names registry mcp_server =
    refused_clashing (clashing names (claimed registry mcp_server))

-- The checks of the specs in `__init__`.
module _ {Spec : Type 0} (permissions : Spec → Option Bool) where
  unfoldable pub specs_refused :
      Bool → Dict Spec → List Binding → Option (List String) → Option Refused
  unfolding reject_unguarded_specs reject_spec_name_collisions
  specs_refused true specs registry mcp_server =
      reject_spec_name_collisions (keys specs) registry mcp_server
  specs_refused false specs registry mcp_server = reject_unguarded_specs permissions specs
