-- ===== src/Config/Rebuilt.antt =====
-- A configuration as arguments again (django_ag_ui/config/build_ag_ui_config.py).
use django_ag_ui.Base.{Option, none, some, ◌≡◌, refl, inr}
use django_ag_ui.Config.Fields.{Setting, missing, null, value, Settings, Arguments, AguiConfig}
use django_ag_ui.Config.{
  get, pick, bool_of, str_of, items_of, number_of, or_parsed, or_raised, assembled, unless_raised,
  build_ag_ui_config,
}

-- A field has a value, or its setting has none.
abbrev pub Settled : {A : Type 0} → Option A → Setting A → Type 0
Settled (some a) s = Unit
Settled none missing = Unit
Settled none null = Unit
Settled none (value a) = ⊥

pick-Settled : {A : Type 0} (o : Option A) (s : Setting A) → Settled o s → pick o s none ≡ o
unfolding pick get
pick-Settled (some a) s h = refl
pick-Settled none missing h = refl
pick-Settled none null h = refl
pick-Settled none (value a) h = absurd h

module _ {M O I F : Type 0} where
  -- Every field of a configuration as an argument.
  abbrev pub arguments_of : AguiConfig M O I F → Arguments M O I F
  arguments_of c = record {
    model = c.model;
    api_key = c.api_key;
    system_prompt = c.system_prompt;
    model_settings = c.model_settings;
    retries = c.retries;
    attachment_max_bytes = some c.attachment_max_bytes;
    attachment_allowed_types = some c.attachment_allowed_types;
    attachment_inline = c.attachment_inline;
    manage_system_prompt = some c.manage_system_prompt;
    allow_uploaded_files = some c.allow_uploaded_files;
    forward_reasoning = some c.forward_reasoning;
    transcription_max_bytes = some c.transcription_max_bytes;
    transcription_allowed_types = some c.transcription_allowed_types;
    thread_list_limit = some c.thread_list_limit;
    run_list_limit = some c.run_list_limit;
    heartbeat_seconds = some c.heartbeat_seconds;
    approval_prompts = some c.approval_prompts;
    tool_guard = some c.tool_guard;
    tool_failure = some c.tool_failure;
    run_context = some c.run_context;
  }

  -- The settings hold no value for a field that the configuration leaves out.
  abbrev Compatible : AguiConfig M O I F → Settings M O F → Type 0
  Compatible c s =
      Settled c.model s.model
      × Settled c.api_key s.api_key
      × Settled c.system_prompt s.system_prompt
      × Settled c.model_settings s.model_settings
      × Settled c.retries s.retries

  -- A configuration given back as arguments is built again, whatever the settings say of the fields
  -- that it has a value for; for one that it leaves out the settings hold none.
  pub build_ag_ui_config-arguments_of :
      (default_heartbeat : F) (c : AguiConfig M O I F) (s : Settings M O F)
      → Compatible c s
      → build_ag_ui_config default_heartbeat (arguments_of c) s ≡ inr c
  unfolding build_ag_ui_config unless_raised assembled number_of or_raised or_parsed items_of
      bool_of str_of
  build_ag_ui_config-arguments_of d c s h = rw (
    pick-Settled c.model s.model h.0,
    pick-Settled c.api_key s.api_key h.1,
    pick-Settled c.system_prompt s.system_prompt h.2,
    pick-Settled c.model_settings s.model_settings h.3,
    pick-Settled c.retries s.retries h.4,
  )
