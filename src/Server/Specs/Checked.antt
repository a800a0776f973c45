-- ===== src/Server/Specs/Checked.antt =====
-- What passes the checks of the specs (django_ag_ui/agent/agui_server.py).
use django_ag_ui.Base.{
  String, List, Option, Bool, true, false, none, some, [], ◌∷◌, ◌++◌, ◌⊎◌, ◌||◌, ◌==◌, ◌≡◌, refl,
  sym, ap, ◌∙◌, inl, inr, All, All-weaken, Bool-cases, contains, eq_iff, or_false,
}
use django_ag_ui.Base.Dict.{Dict, lookup, insert, lookup-insert}
use django_ag_ui.AgentView.ToolNames.{names_of}
use django_ag_ui.AgentView.Sources.{Apart}
use django_ag_ui.Server.Specs.{
  Binding, keys, binding_names, claimed_by, set_default, also_claimed_by, claimed, clash, clashing,
  unguarded_next, unguarded_specs, refused_unguarded, reject_unguarded_specs, refused_clashing,
  reject_spec_name_collisions, specs_refused,
}

inserted_none :
    (n k owner : String) (d : Dict String)
    → lookup k (insert n owner d) ≡ none
    → ((n == k) ≡ false) × (lookup k d ≡ none)
inserted_none n k owner d h = elim (Bool-cases (n == k)) [
  | inl e ↦ let g : some owner ≡ none = rw (lookup-insert, e) at h in cc g
  | inr e ↦ let g : lookup k d ≡ none = rw (lookup-insert, e) at h in (e, g)
]

claimed_by-none :
    (owner : String) (ns : List String) (k : String) (d : Dict String)
    → lookup k (claimed_by owner ns d) ≡ none
    → (contains ns k ≡ false) × (lookup k d ≡ none)
unfolding claimed_by
claimed_by-none owner [] k d h = (refl, h)
claimed_by-none owner (n ∷ ns) k d h =
    let r = claimed_by-none owner ns k (insert n owner d) h in
    let g = inserted_none n k owner d r.1 in (ap (λ b. b || contains ns k) g.0 ∙ r.0, g.1)

set_default-none :
    (o : Option String) (n k owner : String) (d : Dict String)
    → lookup n d ≡ o
    → lookup k (set_default o n owner d) ≡ none
    → ((n == k) ≡ false) × (lookup k d ≡ none)
unfolding set_default
set_default-none none n k owner d e h = inserted_none n k owner d h
set_default-none (some known) n k owner d e h = elim (Bool-cases (n == k)) [
  | inl same ↦
      let g : some known ≡ none = sym e ∙ ap (λ z. lookup z d) ((eq_iff n k).0 same) ∙ h in cc g
  | inr differ ↦ (differ, h)
]

also_claimed_by-none :
    (owner : String) (ns : List String) (k : String) (d : Dict String)
    → lookup k (also_claimed_by owner (some ns) d) ≡ none
    → (contains ns k ≡ false) × (lookup k d ≡ none)
unfolding also_claimed_by
also_claimed_by-none owner [] k d h = (refl, h)
also_claimed_by-none owner (n ∷ ns) k d h =
    let r = also_claimed_by-none owner ns k (set_default (lookup n d) n owner d) h in
    let g = set_default-none (lookup n d) n k owner d refl r.1 in
    (ap (λ b. b || contains ns k) g.0 ∙ r.0, g.1)

optional_none :
    (owner : String) (o : Option (List String)) (k : String) (d : Dict String)
    → lookup k (also_claimed_by owner o d) ≡ none
    → (contains (names_of o) k ≡ false) × (lookup k d ≡ none)
unfolding also_claimed_by
optional_none owner none k d h = (refl, h)
optional_none owner (some ns) k d h = also_claimed_by-none owner ns k d h

contains-append :
    (xs ys : List String) (k : String)
    → contains xs k ≡ false
    → contains ys k ≡ false
    → contains (xs ++ ys) k ≡ false
contains-append [] ys k h g = g
contains-append (x ∷ xs) ys k h g =
    let p = or_false (x == k) (contains xs k) h in
    ap (λ b. b || contains (xs ++ ys) k) p.0 ∙ contains-append xs ys k p.1 g

claimed-none :
    (registry : List Binding) (mcp_server : Option (List String)) (k : String)
    → lookup k (claimed registry mcp_server) ≡ none
    → contains (binding_names registry ++ names_of mcp_server) k ≡ false
unfolding claimed
claimed-none registry mcp_server k h =
    let o = optional_none "the bridged MCP server" mcp_server k _ h in
    contains-append (binding_names registry) (names_of mcp_server) k
      (claimed_by-none "the @tool registry" (binding_names registry) k [] o.1).0 o.0

clash_nil :
    (o : Option String) (n : String) (rest : List (String × String))
    → clash o n rest ≡ []
    → (o ≡ none) × (rest ≡ [])
clash_nil none n rest h = (refl, h)
clash_nil (some owner) n rest h = cc h

clashing_nil :
    (ns : List String) (d : Dict String) → clashing ns d ≡ [] → All (λ n. lookup n d ≡ none) ns
unfolding clashing
clashing_nil [] d h = tt
clashing_nil (n ∷ ns) d h =
    let r = clash_nil (lookup n d) n (clashing ns d) h in (r.0, clashing_nil ns d r.1)

refused_nil : (cs : List (String × String)) → refused_clashing cs ≡ none → cs ≡ []
refused_nil [] h = refl
refused_nil (c ∷ cs) h = cc h

module _ {Spec : Type 0} (permissions : Spec → Option Bool) where
  abbrev Guarding : Dict Spec → Type 0
  Guarding specs = All (λ e. permissions e.1 ≡ some true) specs

  unguarded_nil :
      (o : Option Bool) (name : String) (rest : String ⊎ List String)
      → unguarded_next permissions o name rest ≡ inr []
      → (o ≡ some true) × (rest ≡ inr [])
  unguarded_nil none name rest h = cc h
  unguarded_nil (some true) name (inl other) h = cc h
  unguarded_nil (some false) name (inl other) h = cc h
  unguarded_nil (some true) name (inr names) h = (refl, h)
  unguarded_nil (some false) name (inr names) h = let g : name ∷ names ≡ [] = cc h in cc g

  unguarded-Guarding :
      (specs : Dict Spec) → unguarded_specs permissions specs ≡ inr [] → Guarding specs
  unfolding unguarded_specs
  unguarded-Guarding [] h = tt
  unguarded-Guarding ((name, spec) ∷ specs) h =
      let r = unguarded_nil (permissions spec) name (unguarded_specs permissions specs) h in
      (r.0, unguarded-Guarding specs r.1)

  refused_unguarded-none :
      (r : String ⊎ List String) → refused_unguarded permissions r ≡ none → r ≡ inr []
  refused_unguarded-none (inl name) h = cc h
  refused_unguarded-none (inr []) h = refl
  refused_unguarded-none (inr (n ∷ ns)) h = cc h

  -- A server has no spec without permissions, unless they come as a pre-built capability.
  abbrev pub GuardedIf : Bool → Dict Spec → Type 0
  GuardedIf true specs = Unit
  GuardedIf false specs = Guarding specs

  pub specs_lem :
      (prebuilt : Bool) (specs : Dict Spec) (registry : List Binding)
      (mcp_server : Option (List String))
      → specs_refused permissions prebuilt specs registry mcp_server ≡ none
      → GuardedIf prebuilt specs
        × Apart prebuilt (some (keys specs)) (binding_names registry ++ names_of mcp_server)
  unfolding specs_refused reject_unguarded_specs reject_spec_name_collisions
  specs_lem false specs registry mcp_server h =
      (unguarded-Guarding specs (refused_unguarded-none (unguarded_specs permissions specs) h), tt)
  specs_lem true specs registry mcp_server h = (
    tt,
    All-weaken (keys specs) (λ k e. claimed-none registry mcp_server k e)
        (clashing_nil (keys specs) (claimed registry mcp_server)
          (refused_nil (clashing (keys specs) (claimed registry mcp_server)) h)),
  )
