-- ===== src/Server/Prompts.antt =====
-- Which question the registry and the configuration give to a tool
-- (django_ag_ui/agent/agui_server.py, `_with_registry_prompts`).
use django_ag_ui.Base.{
  String, List, Option, Bool, true, false, none, some, [], ◌∷◌, ◌==◌, ◌≡◌, refl, sym, ap, ◌∙◌,
  subst, inl, inr, contains, Bool-cases, eq_iff, or_false, if◌then◌else◌,
}
use django_ag_ui.Base.Dict.{Dict, lookup, insert, lookup-insert}
use django_ag_ui.Relabel.{Distinct}
use django_ag_ui.Server.Specs.{Binding, keys}

abbrev pub asked : String → Option String → Dict String → Dict String
unfolding insert
asked name none prompts = prompts
asked name (some question) prompts = insert name question prompts

-- `from_registry` of `_with_registry_prompts`
abbrev from_registry : List Binding → Dict String → Dict String
unfolding asked
from_registry [] prompts = prompts
from_registry (b ∷ bs) prompts = from_registry bs (asked b.name b.confirm prompts)

-- `{**first, **second}`
abbrev merged_prompts : Dict String → Dict String → Dict String
unfolding insert
merged_prompts first [] = first
merged_prompts first ((k, v) ∷ second) = merged_prompts (insert k v first) second

abbrev unless_none_asked : Dict String → Dict String → Dict String
unfolding merged_prompts
unless_none_asked [] prompts = prompts
unless_none_asked (a ∷ asks) prompts = merged_prompts (a ∷ asks) prompts

-- `_with_registry_prompts`, of the `approval_prompts` of a config.
unfoldable pub with_registry_prompts : Dict String → List Binding → Dict String
unfolding unless_none_asked from_registry
with_registry_prompts prompts registry = unless_none_asked (from_registry registry []) prompts

abbrev pub or_first : Option String → Option String → Option String
or_first none o = o
or_first (some a) o = some a

pub or_first-none : (o : Option String) → or_first o none ≡ o
or_first-none none = refl
or_first-none (some a) = refl

or_first_assoc : (a b c : Option String) → or_first (or_first a b) c ≡ or_first a (or_first b c)
or_first_assoc none b c = refl
or_first_assoc (some x) b c = refl

no_key : (d : Dict String) (k : String) → contains (keys d) k ≡ false → lookup k d ≡ none
unfolding lookup
no_key [] k h = refl
no_key ((j, v) ∷ d) k h =
    let p = or_false (j == k) (contains (keys d) k) h in rw p.0 (no_key d k p.1)

-- An entry is put under a key of its own.
put_first :
    (b : Bool) (v : String) (rest first : Option String)
    → (b ≡ true → rest ≡ none)
    → or_first rest (if b then some v else first) ≡ or_first (if b then some v else rest) first
put_first true v rest first h = ap (λ o. or_first o (some v)) (h refl)
put_first false v rest first h = refl

merged_prompts_lem :
    (first second : Dict String) (k : String)
    → Distinct (keys second)
    → lookup k (merged_prompts first second) ≡ or_first (lookup k second) (lookup k first)
unfolding merged_prompts lookup
merged_prompts_lem first [] k d = refl
merged_prompts_lem first ((j, v) ∷ second) k d =
    merged_prompts_lem (insert j v first) second k d.1
    ∙ ap (or_first (lookup k second)) (lookup-insert j k v first)
    ∙ put_first (j == k) v (lookup k second) (lookup k first)
        (λ e. subst (λ z. lookup z second ≡ none) ((eq_iff j k).0 e) (no_key second j d.0))

abbrev asks : String → String → Option String → Option String
asks k name confirm = if name == k then confirm else none

-- The question of the last tool of that name that has one.
abbrev pub last_asked : String → List Binding → Option String
last_asked k [] = none
last_asked k (b ∷ bs) = or_first (last_asked k bs) (asks k b.name b.confirm)

asked_lem :
    (k name : String) (confirm : Option String) (d : Dict String)
    → lookup k (asked name confirm d) ≡ or_first (asks k name confirm) (lookup k d)
unfolding asked
asked_lem k name none d = elim (Bool-cases (name == k)) [ inl e ↦ rw e refl | inr e ↦ rw e refl ]
asked_lem k name (some q) d = elim (Bool-cases (name == k)) [
  | inl e ↦ rw (lookup-insert, e) refl
  | inr e ↦ rw (lookup-insert, e) refl
]

from_registry_lem :
    (k : String) (bs : List Binding) (d : Dict String)
    → lookup k (from_registry bs d) ≡ or_first (last_asked k bs) (lookup k d)
unfolding from_registry
from_registry_lem k [] d = refl
from_registry_lem k (b ∷ bs) d =
    from_registry_lem k bs (asked b.name b.confirm d)
    ∙ ap (or_first (last_asked k bs)) (asked_lem k b.name b.confirm d)
    ∙ sym (or_first_assoc (last_asked k bs) (asks k b.name b.confirm) (lookup k d))

unless_none_asked_lem :
    (asks prompts : Dict String) (k : String)
    → Distinct (keys prompts)
    → lookup k (unless_none_asked asks prompts) ≡ or_first (lookup k prompts) (lookup k asks)
unfolding unless_none_asked lookup
unless_none_asked_lem [] prompts k d = sym (or_first-none (lookup k prompts))
unless_none_asked_lem (a ∷ asks) prompts k d = merged_prompts_lem (a ∷ asks) prompts k d

-- The configured prompt of a tool, or else the registry's.
pub with_registry_prompts_lem :
    (prompts : Dict String) (registry : List Binding) (k : String)
    → Distinct (keys prompts)
    → lookup k (with_registry_prompts prompts registry)
      ≡ or_first (lookup k prompts) (last_asked k registry)
unfolding with_registry_prompts lookup
with_registry_prompts_lem prompts registry k d =
    unless_none_asked_lem (from_registry registry []) prompts k d
    ∙ ap (or_first (lookup k prompts))
        (from_registry_lem k registry [] ∙ or_first-none (last_asked k registry))
