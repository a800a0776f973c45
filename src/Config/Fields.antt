-- ===== src/Config/Fields.antt =====
-- What a configuration is read from and what it holds: config/types/ of django_ag_ui, the arguments
-- of `build_ag_ui_config` and the `DJANGO_AG_UI` settings.
use django_ag_ui.Base.{String, List, Option, Bool}
use django_ag_ui.Base.Int.{ℤ}
use django_ag_ui.Base.Dict.{Dict}

-- A key of a settings dict: not there, there as `None`, or there with a value.
pub data Setting (A : Type 0) : Type 0 where
  missing : Setting A
  null : Setting A
  value : A → Setting A

pub data Error : Type 0 where
  type_error : Error
  improperly_configured : String → Error

-- `ContextDelivery`
pub data Delivery : Type 0 where
  instructions : Delivery
  tool : Delivery

-- `RunContextConfig`
pub record RunContext : Type 0 where
  pub client_context : Bool
  pub attachment_manifest : Bool
  pub max_chars : ℤ
  pub delivery : Delivery

-- `ToolGuardConfig`; a frozenset is the list of what is put in it.
pub record ToolGuard : Type 0 where
  pub enabled : Bool
  pub exempt : List String
  pub require_approval : List String

-- `ToolFailureConfig`
pub record ToolFailure : Type 0 where
  pub enabled : Bool
  pub include_detail : Bool

-- The nested dicts of `DJANGO_AG_UI`.
pub record RawRunContext : Type 0 where
  pub client_context : Setting Bool
  pub attachment_manifest : Setting Bool
  pub max_chars : Setting ℤ
  pub delivery : Setting String

pub record RawToolGuard : Type 0 where
  pub enabled : Setting Bool
  pub exempt : Setting (List String)
  pub require_approval : Setting (List String)

pub record RawToolFailure : Type 0 where
  pub enabled : Setting Bool
  pub include_detail : Setting Bool

-- `DJANGO_AG_UI`: models, dicts of model settings and floats are parameters.
pub record Settings (M O F : Type 0) : Type 0 where
  pub model : Setting M
  pub api_key : Setting String
  pub system_prompt : Setting String
  pub model_settings : Setting O
  pub retries : Setting ℤ
  pub attachment_max_bytes : Setting ℤ
  pub attachment_allowed_types : Setting (List String)
  pub manage_system_prompt : Setting String
  pub allow_uploaded_files : Setting Bool
  pub forward_reasoning : Setting Bool
  pub transcription_max_bytes : Setting ℤ
  pub transcription_allowed_types : Setting (List String)
  pub thread_list_limit : Setting ℤ
  pub run_list_limit : Setting ℤ
  pub heartbeat_seconds : Setting F
  pub approval_prompts : Setting (Dict String)
  pub tool_guard : Setting RawToolGuard
  pub tool_failure : Setting RawToolFailure
  pub run_context : Setting RawRunContext

-- The arguments of `build_ag_ui_config`.
pub record Arguments (M O I F : Type 0) : Type 0 where
  pub model : Option M
  pub api_key : Option String
  pub system_prompt : Option String
  pub model_settings : Option O
  pub retries : Option ℤ
  pub attachment_max_bytes : Option ℤ
  pub attachment_allowed_types : Option (List String)
  pub attachment_inline : Option I
  pub manage_system_prompt : Option String
  pub allow_uploaded_files : Option Bool
  pub forward_reasoning : Option Bool
  pub transcription_max_bytes : Option ℤ
  pub transcription_allowed_types : Option (List String)
  pub thread_list_limit : Option ℤ
  pub run_list_limit : Option ℤ
  pub heartbeat_seconds : Option F
  pub approval_prompts : Option (Dict String)
  pub tool_guard : Option ToolGuard
  pub tool_failure : Option ToolFailure
  pub run_context : Option RunContext

pub record AguiConfig (M O I F : Type 0) : Type 0 where
  pub model : Option M
  pub api_key : Option String
  pub system_prompt : Option String
  pub model_settings : Option O
  pub retries : Option ℤ
  pub attachment_max_bytes : ℤ
  pub attachment_allowed_types : List String
  pub attachment_inline : Option I
  pub manage_system_prompt : String
  pub allow_uploaded_files : Bool
  pub forward_reasoning : Bool
  pub transcription_max_bytes : ℤ
  pub transcription_allowed_types : List String
  pub thread_list_limit : ℤ
  pub run_list_limit : ℤ
  pub heartbeat_seconds : F
  pub approval_prompts : Dict String
  pub tool_guard : ToolGuard
  pub tool_failure : ToolFailure
  pub run_context : RunContext
