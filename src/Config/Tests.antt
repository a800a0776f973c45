-- ===== src/Config/Tests.antt =====
-- A configuration of two settings and two arguments
-- (django_ag_ui/config/build_ag_ui_config.py).
use django_ag_ui.Base.{ℕ, none, some, [], ◌∷◌, ◌≡◌, refl, inr, true, false}
use django_ag_ui.Base.Int.{pos}
use django_ag_ui.Config.{build_ag_ui_config, parse_run_context, parse_tool_failure}
use django_ag_ui.Config.Fields.{missing, null, value, Settings, Arguments, AguiConfig, instructions}
use django_ag_ui.Config.Rebuilt.{arguments_of, build_ag_ui_config-arguments_of}
use django_ag_ui.Config.Layers.{only_inline, layered, build_ag_ui_config-layered}

-- Models, dicts of model settings, inline configurations and floats are numbers here.
abbrev settings : Settings ℕ ℕ ℕ
settings = record {
  model = value 7;
  api_key = null;
  system_prompt = missing;
  model_settings = missing;
  retries = missing;
  attachment_max_bytes = value (pos 100);
  attachment_allowed_types = null;
  manage_system_prompt = null;
  allow_uploaded_files = missing;
  forward_reasoning = missing;
  transcription_max_bytes = missing;
  transcription_allowed_types = missing;
  thread_list_limit = missing;
  run_list_limit = missing;
  heartbeat_seconds = missing;
  approval_prompts = missing;
  tool_guard = missing;
  tool_failure = missing;
  run_context = missing;
}

abbrev arguments : Arguments ℕ ℕ ℕ ℕ
arguments = record {
  model = none;
  api_key = none;
  system_prompt = none;
  model_settings = none;
  retries = some (pos 3);
  attachment_max_bytes = none;
  attachment_allowed_types = none;
  attachment_inline = none;
  manage_system_prompt = none;
  allow_uploaded_files = none;
  forward_reasoning = none;
  transcription_max_bytes = none;
  transcription_allowed_types = none;
  thread_list_limit = none;
  run_list_limit = none;
  heartbeat_seconds = none;
  approval_prompts = none;
  tool_guard = some (record { enabled = true; exempt = "help" ∷ []; require_approval = [] });
  tool_failure = none;
  run_context = none;
}

abbrev built : AguiConfig ℕ ℕ ℕ ℕ
built = record {
  model = some 7;
  api_key = none;
  system_prompt = none;
  model_settings = none;
  retries = some (pos 3);
  attachment_max_bytes = pos 100;
  attachment_allowed_types = [];
  attachment_inline = none;
  manage_system_prompt = "None";
  allow_uploaded_files = false;
  forward_reasoning = true;
  transcription_max_bytes = pos 26214400;
  transcription_allowed_types = [];
  thread_list_limit = pos 200;
  run_list_limit = pos 50;
  heartbeat_seconds = 15;
  approval_prompts = [];
  tool_guard = record { enabled = true; exempt = "help" ∷ []; require_approval = [] };
  tool_failure = record { enabled = true; include_detail = false };
  run_context = record {
    client_context = true;
    attachment_manifest = true;
    max_chars = pos 20000;
    delivery = instructions;
  };
}

build_ag_ui_config-built : build_ag_ui_config 15 arguments settings ≡ inr built
unfolding build_ag_ui_config parse_run_context parse_tool_failure
build_ag_ui_config-built = refl

-- Other settings, none of which comes through.
abbrev elsewhere : Settings ℕ ℕ ℕ
elsewhere = record settings {
  model = value 9;
  retries = value (pos 1);
  thread_list_limit = value (pos 7);
  manage_system_prompt = value "client";
}

build_ag_ui_config-arguments_of_example :
    build_ag_ui_config 15 (arguments_of built) elsewhere ≡ inr built
build_ag_ui_config-arguments_of_example =
    build_ag_ui_config-arguments_of 15 built elsewhere (tt, tt, tt, tt, tt)

build_ag_ui_config-layered_example :
    build_ag_ui_config 15 (only_inline arguments) (layered arguments settings)
    ≡ build_ag_ui_config 15 arguments settings
build_ag_ui_config-layered_example = build_ag_ui_config-layered 15 arguments settings
