-- ===== src/Skills.antt =====
-- django_ag_ui/skills/skill_registry.py and skills_view.py: the skills of an endpoint, and the view
-- that lists them.
pub mod Registered
use django_ag_ui.Base.{
  ℕ, String, List, Option, Bool, true, false, none, some, [], ◌∷◌, ◌++◌, ◌⊎◌, inl, inr, map,
  contains, if◌then◌else◌,
}
use django_ag_ui.Http.{Method, Method.get, Reply, Reply.json, Reply.not_allowed, Reply.auth_error}

-- `SkillSpec`
pub record SkillSpec : Type 0 where
  pub name : String
  pub title : String
  pub prompt : Option String
  pub description : Option String
  send_immediately : Bool
  chip : Bool

-- What a field of the payload holds.
pub data Field : Type 0 where
  text : String → Field
  yes : Field

-- `_skills`: the specs by their names, in the order in which they were registered.
abbrev pub SkillRegistry : Type 0
SkillRegistry = List SkillSpec

abbrev pub names_of : SkillRegistry → List String
names_of r = map (λ s. s.name) r

-- `SkillRegistry.register`: the name of the `ValueError`, or the registry after it.
unfoldable pub register : SkillSpec → SkillRegistry → String ⊎ SkillRegistry
register spec r = if contains (names_of r) spec.name then inl spec.name else inr (r ++ spec ∷ [])

abbrev field : String → Option String → List (String × Field)
field key none = []
field key (some s) = (key, text s) ∷ []

abbrev mark : String → Bool → List (String × Field)
mark key true = (key, yes) ∷ []
mark key false = []

-- `_as_dict`
as_dict : SkillSpec → List (String × Field)
as_dict spec =
    ("name", text spec.name)
    ∷ ("title", text spec.title)
    ∷ (field "prompt" spec.prompt
        ++ field "description" spec.description
        ++ mark "sendImmediately" spec.send_immediately
        ++ mark "chip" spec.chip)

-- `SkillRegistry.payload`
pub payload : SkillRegistry → List (List (String × Field))
unfolding as_dict
payload r = map as_dict r

listed : Method → SkillRegistry → Reply (List (List (String × Field)))
unfolding payload
listed get r = json 200 (payload r)
listed _ r = not_allowed (get ∷ [])

-- `SkillsView.__call__` for the status that `authorize` denies with, if it does.
pub call : Option ℕ → Method → SkillRegistry → Reply (List (List (String × Field)))
unfolding listed
call (some code) method r = auth_error code
call none method r = listed method r
