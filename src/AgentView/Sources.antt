-- ===== src/AgentView/Sources.antt =====
-- What each source of tools offers beside the others (django_ag_ui/agent/agui_view.py).
use django_ag_ui.Base.{
  String, List, Option, Bool, true, false, none, some, [], ◌∷◌, ◌++◌, ◌==◌, ◌≡◌, ◌||◌, ◌&&◌, not,
  contains, refl, Bool-cases, inl, inr, arith, eq_iff, subst, sym, append-nil, All,
}
use django_ag_ui.Relabel.{Distinct}
use django_ag_ui.AgentView.Names.{contains-but_for, but_for-Distinct}
use django_ag_ui.AgentView.ToolNames.{
  names_of, mcp_toolsets, spec_capabilities, attachment_toolsets,
}

-- A pre-built capability holds no name of the others.
abbrev pub Apart : Bool → Option (List String) → List String → Type 0
Apart true specs seen = All (λ k. contains seen k ≡ false) (names_of specs)
Apart false specs seen = Unit

pub Apart-contains :
    (seen names : List String) (k : String)
    → All (λ n. contains seen n ≡ false) names
    → contains names k ≡ true
    → contains seen k ≡ false
Apart-contains seen [] k a h = cc h
Apart-contains seen (n ∷ names) k a h = elim (Bool-cases (n == k)) [
  | inl e ↦ subst (λ z. contains seen z ≡ false) ((eq_iff n k).0 e) a.0
  | inr e ↦ let g : contains names k ≡ true = rw e at h in Apart-contains seen names k a.1 g
]

pub contains-spec_capabilities :
    (capability : Bool) (o : Option (List String)) (seen : List String) (k : String)
    → Apart capability o seen
    → contains (spec_capabilities capability o seen) k ≡ true
    → (contains (names_of o) k ≡ true) × (contains seen k ≡ false)
unfolding spec_capabilities
contains-spec_capabilities true o seen k a h = (h, Apart-contains seen (names_of o) k a h)
contains-spec_capabilities false none seen k a h = cc h
contains-spec_capabilities false (some specs) seen k a h =
    ground (arith, contains-but_for seen specs k)

pub spec_capabilities-Distinct :
    (capability : Bool) (o : Option (List String)) (seen : List String)
    → Distinct (names_of o)
    → Distinct (spec_capabilities capability o seen)
unfolding spec_capabilities
spec_capabilities-Distinct true o seen d = d
spec_capabilities-Distinct false none seen d = tt
spec_capabilities-Distinct false (some specs) seen d = but_for-Distinct seen specs d

pub contains-mcp_toolsets :
    (o : Option (List String)) (seen : List String) (k : String)
    → contains (mcp_toolsets o seen).0 k ≡ (contains (names_of o) k && not (contains seen k))
unfolding mcp_toolsets
contains-mcp_toolsets none seen k = refl
contains-mcp_toolsets (some names) seen k = contains-but_for seen names k

pub mcp_toolsets-Distinct :
    (o : Option (List String)) (seen : List String)
    → Distinct (names_of o)
    → Distinct (mcp_toolsets o seen).0
unfolding mcp_toolsets
mcp_toolsets-Distinct none seen d = tt
mcp_toolsets-Distinct (some names) seen d = but_for-Distinct seen names d

pub mcp_toolsets_seen :
    (o : Option (List String)) (seen : List String) → (mcp_toolsets o seen).1 ≡ seen ++ names_of o
unfolding mcp_toolsets
mcp_toolsets_seen none seen = sym (append-nil seen)
mcp_toolsets_seen (some names) seen = refl

pub contains-attachment_toolsets :
    (b : Bool) (seen : List String) (k : String)
    → contains (attachment_toolsets b seen) k ≡ true
    → contains seen k ≡ false
unfolding attachment_toolsets
contains-attachment_toolsets true seen k h = elim (Bool-cases (contains seen "read_attachment")) [
  | inl e ↦ let g : false ≡ true = rw e at h in cc g
  | inr e ↦
      let g : ("read_attachment" == k || false) ≡ true = rw e at h in
      let same : "read_attachment" ≡ k = (eq_iff "read_attachment" k).0 (ground (arith, g)) in
      subst (λ z. contains seen z ≡ false) same e
]
contains-attachment_toolsets false seen k h = cc h

pub attachment_toolsets-Distinct :
    (b : Bool) (seen : List String) → Distinct (attachment_toolsets b seen)
unfolding attachment_toolsets
attachment_toolsets-Distinct false seen = tt
attachment_toolsets-Distinct true seen = elim (Bool-cases (contains seen "read_attachment")) [
  | inl e ↦ rw e tt
  | inr e ↦ rw e (refl, tt)
]

-- Whatever was seen before.
pub attachment_known :
    (b : Bool) (seen : List String) (k : String)
    → contains (attachment_toolsets b seen) k ≡ true
    → contains (attachment_toolsets b []) k ≡ true
unfolding attachment_toolsets
attachment_known false seen k h = cc h
attachment_known true seen k h = elim (Bool-cases (contains seen "read_attachment")) [
  | inl e ↦ let g : false ≡ true = rw e at h in cc g
  | inr e ↦ rw e at h
]
