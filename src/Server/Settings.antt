-- ===== src/Server/Settings.antt =====
-- What a server refuses before it is built: django_ag_ui/check_removed_settings.py and
-- django_ag_ui/check_no_dotted_paths.py. Both raise one error for all that they refuse, which is a
-- list here; where it is raised the names are sorted.
use django_ag_ui.Base.{
  String, Text, List, Option, Bool, true, false, none, some, [], ◌∷◌, ◌++◌, not, any, contains,
  codes, keep_if, map,
}
use django_ag_ui.Base.Dict.{Dict, lookup}

-- `_REMOVED_SETTINGS`
abbrev removed_settings : Dict String
removed_settings =
    ("AGENT_FACTORY", "pass agent_factory=your_factory to AGUIServer(...)")
    ∷ ("TOOLSETS", "pass toolsets=[YourToolset()] to AGUIServer(...)")
    ∷ ("CAPABILITIES", "pass capabilities=[YourCapability()] to AGUIServer(...)")
    ∷ ("AUDIT_LOGGER", "pass audit_logger=YourLogger() to AGUIServer(...)")
    ∷ ("CONVERSATION_STORE", "pass conversation_store=YourStore() to AGUIServer(...)")
    ∷ ("ATTACHMENT_STORE", "pass attachment_store=YourStore() to AGUIServer(...)")
    ∷ ("TRANSCRIPTION_BACKEND", "pass transcription_backend=YourBackend() to AGUIServer(...)")
    ∷ ("DRF_MCP_SERVER", "pass a django-spec-mcp server as mcp_server= to AGUIServer(...)")
    ∷ ("SERVICE_SPECS", "pass service_specs={...} to AGUIServer(...)")
    ∷ ("PROVIDER", "pass provider=YourProvider() to AGUIServer(...)")
    ∷ []

-- `_NEVER_READ_SETTINGS`
abbrev never_read_settings : Dict String
never_read_settings =
    (
      "ALLOW_ANONYMOUS",
      "never a setting of this package — pass allow_anonymous=True to the store you construct, e.g. DefaultStepStore(request, allow_anonymous=True)",
    )
    ∷ []

-- `_KNOWN_SETTINGS`
abbrev pub known_settings : List String
known_settings =
    "ALLOW_UPLOADED_FILES" ∷ "API_KEY" ∷ "APPROVAL_PROMPTS" ∷ "ATTACHMENT_ALLOWED_TYPES"
    ∷ "ATTACHMENT_MAX_BYTES" ∷ "FORWARD_REASONING" ∷ "HEARTBEAT_SECONDS" ∷ "MANAGE_SYSTEM_PROMPT"
    ∷ "MODEL" ∷ "MODEL_SETTINGS" ∷ "RETRIES" ∷ "RUN_CONTEXT" ∷ "RUN_LIST_LIMIT" ∷ "SYSTEM_PROMPT"
    ∷ "THREAD_LIST_LIMIT" ∷ "TOOL_FAILURE" ∷ "TOOL_GUARD" ∷ "TRANSCRIPTION_ALLOWED_TYPES"
    ∷ "TRANSCRIPTION_MAX_BYTES" ∷ []

-- `_UNKNOWN_ADVICE`
abbrev unknown_advice : String
unknown_advice = "not a django-ag-ui setting — check the spelling against the settings table"

abbrev never_read_or_unknown : Option String → Text
never_read_or_unknown (some advice) = codes advice
never_read_or_unknown none = codes unknown_advice

abbrev removed_or : Option String → Text → Text
removed_or (some advice) other = codes "removed in 0.19.0, " ++ codes advice
removed_or none other = other

-- `_advice`
unfoldable advice : String → Text
unfolding lookup
advice name =
    removed_or (lookup name removed_settings)
      (never_read_or_unknown (lookup name never_read_settings))

abbrev pub advised : String → String × Text
unfolding advice
advised name = (name, advice name)

-- The settings that `check_removed_settings` raises for, of the keys of `DJANGO_AG_UI`.
unfoldable pub check_removed_settings : List String → List (String × Text)
unfolding advised
check_removed_settings settings =
    map advised (keep_if (λ name. not (contains known_settings name)) settings)

-- A collaborator as `_names_a_path` sees it: a text, a list or tuple with which of its items are
-- texts, or any other object.
pub data Collaborator : Type 0 where
  a_text : Collaborator
  a_sequence : List Bool → Collaborator
  an_object : Collaborator

-- `_names_a_path`
abbrev pub names_a_path : Collaborator → Bool
names_a_path a_text = true
names_a_path (a_sequence items) = any (λ is_text. is_text) items
names_a_path an_object = false

abbrev pub named_of : Bool → String → List String → List String
named_of true name rest = name ∷ rest
named_of false name rest = rest

-- The collaborators that `check_no_dotted_paths` raises for.
unfoldable pub check_no_dotted_paths : List (String × Collaborator) → List String
check_no_dotted_paths [] = []
check_no_dotted_paths ((name, value) ∷ cs) =
    named_of (names_a_path value) name (check_no_dotted_paths cs)
