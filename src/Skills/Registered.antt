-- ===== src/Skills/Registered.antt =====
-- Which skills a registry holds (django_ag_ui/skills/skill_registry.py).
use mathlib.Core.List.{map-append}
use django_ag_ui.Base.{
  String, List, Bool, true, false, [], ◌∷◌, ◌++◌, ◌≡◌, sym, ap, ◌∙◌, append_assoc, append-nil, ◌⊎◌,
  inl, inr, contains, if◌then◌else◌,
}
use django_ag_ui.Skills.{SkillSpec, SkillRegistry, names_of, register}

-- The skills given to `register` one after the other, where one that is refused changes nothing.
abbrev after : SkillRegistry → String ⊎ SkillRegistry → SkillRegistry
after r (inl name) = r
after r (inr r') = r'

unfoldable registered : SkillRegistry → List SkillSpec → SkillRegistry
registered r [] = r
registered r (s ∷ ss) = registered (after r (register s r)) ss

-- The first skill of each name that is not seen yet.
abbrev firsts : List String → List SkillSpec → List SkillSpec
firsts seen [] = []
firsts seen (s ∷ ss) =
    let rest = firsts seen ss in
    let after_it = firsts (seen ++ s.name ∷ []) ss in
    if contains seen s.name then rest else s ∷ after_it

names_of-append :
    (r : SkillRegistry) (s : SkillSpec) → names_of (r ++ s ∷ []) ≡ names_of r ++ s.name ∷ []
names_of-append r s = map-append (λ t. t.name) r (s ∷ [])

registered_step :
    (r : SkillRegistry) (s : SkillSpec) (ss : List SkillSpec) (b : Bool)
    → registered r ss ≡ r ++ firsts (names_of r) ss
    → registered (r ++ s ∷ []) ss ≡ (r ++ s ∷ []) ++ firsts (names_of (r ++ s ∷ [])) ss
    → registered (after r (if b then inl s.name else inr (r ++ s ∷ []))) ss
      ≡ r ++ (if b then firsts (names_of r) ss else s ∷ firsts (names_of r ++ s.name ∷ []) ss)
registered_step r s ss true h g = h
registered_step r s ss false h g =
    g
    ∙ ap (λ n. (r ++ s ∷ []) ++ firsts n ss) (names_of-append r s)
    ∙ append_assoc r (s ∷ []) (firsts (names_of r ++ s.name ∷ []) ss)

-- A registry keeps what it holds, and behind it the first skill of each further name, in the order
-- in which they were registered.
registered-firsts :
    (r : SkillRegistry) (ss : List SkillSpec) → registered r ss ≡ r ++ firsts (names_of r) ss
unfolding registered register
registered-firsts r [] = sym (append-nil r)
registered-firsts r (s ∷ ss) =
    registered_step r s ss (contains (names_of r) s.name) (registered-firsts r ss)
      (registered-firsts (r ++ s ∷ []) ss)
