-- ===== src/Config.antt =====
-- django_ag_ui/config/build_ag_ui_config.py with config/types/ and conf.py: the configuration of an
-- endpoint, of its arguments and the `DJANGO_AG_UI` settings. A setting holds `None` or a value of
-- the type the settings table gives it; the conversions of `None` are written out.
pub mod Fields
pub mod Rebuilt
pub mod Layers
mod Tests
use django_ag_ui.Base.{
  ℕ, String, List, Option, Bool, true, false, none, some, [], ◌∷◌, ◌*◌, ◌⊎◌, inl, inr, ◌==◌,
  if◌then◌else◌,
}
use django_ag_ui.Base.Int.{ℤ, pos}
use django_ag_ui.Config.Fields.{
  Setting, missing, null, value, Error, type_error, improperly_configured, Delivery, instructions,
  tool, RunContext, ToolGuard, ToolFailure, RawRunContext, RawToolGuard, RawToolFailure, Settings,
  Arguments, AguiConfig,
}

-- `raw.get(key, default)`, with `none` for `None`.
pub get : {A : Type 0} → Setting A → Option A → Option A
get missing default = default
get null default = none
get (value a) default = some a

-- `pick`
pub pick : {A : Type 0} → Option A → Setting A → Option A → Option A
unfolding get
pick (some a) s default = some a
pick none s default = get s default

-- `bool(...)` and `str(...)` of what may be `None`
pub bool_of : Option Bool → Bool
bool_of none = false
bool_of (some b) = b

pub str_of : Option String → String
str_of none = "None"
str_of (some s) = s

-- `tuple(... or ())`, `dict(... or {})` and `frozenset(... or ())`
pub items_of : {A : Type 0} → Option (List A) → List A
items_of none = []
items_of (some l) = l

-- `int(...)` and `float(...)`, which raise for `None`
pub number_of : {A : Type 0} → Option A → Error ⊎ A
number_of none = inl type_error
number_of (some n) = inr n

infixl 5 ◌>>=◌
abbrev ◌>>=◌ : {A B : Type 0} → Error ⊎ A → (A → Error ⊎ B) → Error ⊎ B
inl e >>= f = inl e
inr a >>= f = f a

raw_of : {A : Type 0} → Setting A → A → A
raw_of missing empty = empty
raw_of null empty = empty
raw_of (value a) empty = a

abbrev no_guard : RawToolGuard
no_guard = record { enabled = missing; exempt = missing; require_approval = missing }

abbrev no_failure : RawToolFailure
no_failure = record { enabled = missing; include_detail = missing }

abbrev no_context : RawRunContext
no_context = record {
  client_context = missing;
  attachment_manifest = missing;
  max_chars = missing;
  delivery = missing;
}

read_guard : RawToolGuard → ToolGuard
unfolding bool_of items_of get
read_guard guard = record {
  enabled = bool_of (get guard.enabled (some false));
  exempt = items_of (get guard.exempt (some []));
  require_approval = items_of (get guard.require_approval (some []));
}

-- `_parse_tool_guard`
pub parse_tool_guard : Setting RawToolGuard → ToolGuard
unfolding read_guard raw_of
parse_tool_guard raw = read_guard (raw_of raw no_guard)

read_failure : RawToolFailure → ToolFailure
unfolding bool_of get
read_failure failure = record {
  enabled = bool_of (get failure.enabled (some true));
  include_detail = bool_of (get failure.include_detail (some false));
}

-- `_parse_tool_failure`
pub parse_tool_failure : Setting RawToolFailure → ToolFailure
unfolding read_failure raw_of
parse_tool_failure raw = read_failure (raw_of raw no_failure)

-- Membership in `_DELIVERIES`
delivery_of : String → Error ⊎ Delivery
delivery_of s =
    if s == "instructions"
    then inr instructions
    else if s == "tool"
    then inr tool
    else inl (improperly_configured s)

read_context : RawRunContext → Error ⊎ RunContext
unfolding delivery_of number_of bool_of str_of get
read_context c = do
  delivery ← delivery_of (str_of (get c.delivery (some "instructions")))
  max_chars ← number_of (get c.max_chars (some (pos 20000)))
  inr (record {
    client_context = bool_of (get c.client_context (some true));
    attachment_manifest = bool_of (get c.attachment_manifest (some true));
    max_chars = max_chars;
    delivery = delivery;
  })

-- `_parse_run_context`
pub parse_run_context : Setting RawRunContext → Error ⊎ RunContext
unfolding read_context raw_of
parse_run_context raw = read_context (raw_of raw no_context)

or_parsed : {A : Type 0} → Option A → A → A
or_parsed (some a) b = a
or_parsed none b = b

or_raised : {A : Type 0} → Option A → Error ⊎ A → Error ⊎ A
or_raised (some a) b = inr a
or_raised none b = b

module _ {M O I F : Type 0} where
  -- `AGUIConfig(...)`, with the values that can raise given as they come out.
  assembled :
      Arguments M O I F → Settings M O F → ℤ → ℤ → ℤ → ℤ → F → RunContext → AguiConfig M O I F
  unfolding pick items_of bool_of str_of or_parsed
  assembled a s attachment_max_bytes transcription_max_bytes thread_list_limit run_list_limit
        heartbeat_seconds run_context =
      record {
        model = pick a.model s.model none;
        api_key = pick a.api_key s.api_key none;
        system_prompt = pick a.system_prompt s.system_prompt none;
        model_settings = pick a.model_settings s.model_settings none;
        retries = pick a.retries s.retries none;
        attachment_max_bytes = attachment_max_bytes;
        attachment_allowed_types =
            items_of (pick a.attachment_allowed_types s.attachment_allowed_types (some []));
        attachment_inline = a.attachment_inline;
        manage_system_prompt =
            str_of (pick a.manage_system_prompt s.manage_system_prompt (some "server"));
        allow_uploaded_files =
            bool_of (pick a.allow_uploaded_files s.allow_uploaded_files (some false));
        forward_reasoning = bool_of (pick a.forward_reasoning s.forward_reasoning (some true));
        transcription_max_bytes = transcription_max_bytes;
        transcription_allowed_types =
            items_of (pick a.transcription_allowed_types s.transcription_allowed_types (some []));
        thread_list_limit = thread_list_limit;
        run_list_limit = run_list_limit;
        heartbeat_seconds = heartbeat_seconds;
        approval_prompts = items_of (pick a.approval_prompts s.approval_prompts (some []));
        tool_guard = or_parsed a.tool_guard (parse_tool_guard s.tool_guard);
        tool_failure = or_parsed a.tool_failure (parse_tool_failure s.tool_failure);
        run_context = run_context;
      }

  unless_raised :
      Arguments M O I F
      → Settings M O F
      → Error ⊎ ℤ
      → Error ⊎ ℤ
      → Error ⊎ ℤ
      → Error ⊎ ℤ
      → Error ⊎ F
      → Error ⊎ RunContext
      → Error ⊎ AguiConfig M O I F
  unfolding assembled
  unless_raised a s attachment_max transcription_max thread_limit run_limit heartbeat context = do
    attachment_max_bytes ← attachment_max
    transcription_max_bytes ← transcription_max
    thread_list_limit ← thread_limit
    run_list_limit ← run_limit
    heartbeat_seconds ← heartbeat
    run_context ← context
    inr (
        assembled a s attachment_max_bytes transcription_max_bytes thread_list_limit run_list_limit
          heartbeat_seconds run_context)

  pub build_ag_ui_config : F → Arguments M O I F → Settings M O F → Error ⊎ AguiConfig M O I F
  unfolding pick number_of or_raised unless_raised
  build_ag_ui_config default_heartbeat a s =
      unless_raised a s
        (number_of
          (pick a.attachment_max_bytes s.attachment_max_bytes (some (pos (10 * 1024 * 1024)))))
        (number_of (
          pick a.transcription_max_bytes s.transcription_max_bytes (some (pos (25 * 1024 * 1024)))))
        (number_of (pick a.thread_list_limit s.thread_list_limit (some (pos 200))))
        (number_of (pick a.run_list_limit s.run_list_limit (some (pos 50))))
        (number_of (pick a.heartbeat_seconds s.heartbeat_seconds (some default_heartbeat)))
        (or_raised a.run_context (parse_run_context s.run_context))
