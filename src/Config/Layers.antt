-- ===== src/Config/Layers.antt =====
-- Arguments as a layer over the settings (django_ag_ui/config/build_ag_ui_config.py).
use django_ag_ui.Base.{String, Option, none, some, ◌≡◌, refl, ◌⊎◌, inr}
use django_ag_ui.Base.Int.{ℤ}
use django_ag_ui.Config.Fields.{
  Setting, value, Error, Delivery, instructions, tool, RunContext, ToolGuard, ToolFailure,
  RawRunContext, RawToolGuard, RawToolFailure, Settings, Arguments,
}
use django_ag_ui.Config.{
  get, pick, bool_of, str_of, items_of, number_of, raw_of, read_guard, parse_tool_guard,
  read_failure, parse_tool_failure, delivery_of, read_context, parse_run_context, or_parsed,
  or_raised, assembled, unless_raised, build_ag_ui_config,
}

abbrev pub over : {A : Type 0} → Option A → Setting A → Setting A
over (some a) s = value a
over none s = s

abbrev name_of : Delivery → String
name_of instructions = "instructions"
name_of tool = "tool"

-- The nested dicts that hold a configuration.
abbrev raw_guard : Option ToolGuard → Setting RawToolGuard → Setting RawToolGuard
raw_guard (some g) s = value (record {
  enabled = value g.enabled;
  exempt = value g.exempt;
  require_approval = value g.require_approval;
})
raw_guard none s = s

abbrev raw_failure : Option ToolFailure → Setting RawToolFailure → Setting RawToolFailure
raw_failure (some f) s =
    value (record { enabled = value f.enabled; include_detail = value f.include_detail })
raw_failure none s = s

abbrev raw_context : Option RunContext → Setting RawRunContext → Setting RawRunContext
raw_context (some c) s = value (record {
  client_context = value c.client_context;
  attachment_manifest = value c.attachment_manifest;
  max_chars = value c.max_chars;
  delivery = value (name_of c.delivery);
})
raw_context none s = s

module _ {M O I F : Type 0} where
  -- The settings with the arguments written over them.
  abbrev pub layered : Arguments M O I F → Settings M O F → Settings M O F
  layered a s = record {
    model = over a.model s.model;
    api_key = over a.api_key s.api_key;
    system_prompt = over a.system_prompt s.system_prompt;
    model_settings = over a.model_settings s.model_settings;
    retries = over a.retries s.retries;
    attachment_max_bytes = over a.attachment_max_bytes s.attachment_max_bytes;
    attachment_allowed_types = over a.attachment_allowed_types s.attachment_allowed_types;
    manage_system_prompt = over a.manage_system_prompt s.manage_system_prompt;
    allow_uploaded_files = over a.allow_uploaded_files s.allow_uploaded_files;
    forward_reasoning = over a.forward_reasoning s.forward_reasoning;
    transcription_max_bytes = over a.transcription_max_bytes s.transcription_max_bytes;
    transcription_allowed_types = over a.transcription_allowed_types s.transcription_allowed_types;
    thread_list_limit = over a.thread_list_limit s.thread_list_limit;
    run_list_limit = over a.run_list_limit s.run_list_limit;
    heartbeat_seconds = over a.heartbeat_seconds s.heartbeat_seconds;
    approval_prompts = over a.approval_prompts s.approval_prompts;
    tool_guard = raw_guard a.tool_guard s.tool_guard;
    tool_failure = raw_failure a.tool_failure s.tool_failure;
    run_context = raw_context a.run_context s.run_context;
  }

  -- The one argument that is no setting.
  abbrev pub only_inline : Arguments M O I F → Arguments M O I F
  only_inline a = record {
    model = none;
    api_key = none;
    system_prompt = none;
    model_settings = none;
    retries = none;
    attachment_max_bytes = none;
    attachment_allowed_types = none;
    attachment_inline = a.attachment_inline;
    manage_system_prompt = none;
    allow_uploaded_files = none;
    forward_reasoning = none;
    transcription_max_bytes = none;
    transcription_allowed_types = none;
    thread_list_limit = none;
    run_list_limit = none;
    heartbeat_seconds = none;
    approval_prompts = none;
    tool_guard = none;
    tool_failure = none;
    run_context = none;
  }

pick-over :
    {A : Type 0} (o : Option A) (s : Setting A) (d : Option A) → pick none (over o s) d ≡ pick o s d
unfolding pick get
pick-over (some a) s d = refl
pick-over none s d = refl

guard_over :
    (o : Option ToolGuard) (s : Setting RawToolGuard)
    → parse_tool_guard (raw_guard o s) ≡ or_parsed o (parse_tool_guard s)
unfolding parse_tool_guard read_guard raw_of or_parsed get bool_of items_of
guard_over (some g) s = refl
guard_over none s = refl

failure_over :
    (o : Option ToolFailure) (s : Setting RawToolFailure)
    → parse_tool_failure (raw_failure o s) ≡ or_parsed o (parse_tool_failure s)
unfolding parse_tool_failure read_failure raw_of or_parsed get bool_of
failure_over (some f) s = refl
failure_over none s = refl

delivery_of-name_of : (d : Delivery) → delivery_of (name_of d) ≡ inr d
unfolding delivery_of
delivery_of-name_of instructions = refl
delivery_of-name_of tool = refl

context_over :
    (o : Option RunContext) (s : Setting RawRunContext)
    → parse_run_context (raw_context o s) ≡ or_raised o (parse_run_context s)
unfolding parse_run_context read_context raw_of or_raised get bool_of str_of number_of
context_over (some c) s = rw (delivery_of-name_of c.delivery)
context_over none s = refl

module _ {M O I F : Type 0} where
  assembled-layered :
      (a : Arguments M O I F) (s : Settings M O F) (b1 b2 b3 b4 : ℤ) (h : F) (r : RunContext)
      → assembled (only_inline a) (layered a s) b1 b2 b3 b4 h r ≡ assembled a s b1 b2 b3 b4 h r
  unfolding assembled or_parsed
  assembled-layered a s b1 b2 b3 b4 h r = rw (
    pick-over a.model s.model,
    pick-over a.api_key s.api_key,
    pick-over a.system_prompt s.system_prompt,
    pick-over a.model_settings s.model_settings,
    pick-over a.retries s.retries,
    pick-over a.attachment_allowed_types s.attachment_allowed_types,
    pick-over a.manage_system_prompt s.manage_system_prompt,
    pick-over a.allow_uploaded_files s.allow_uploaded_files,
    pick-over a.forward_reasoning s.forward_reasoning,
    pick-over a.transcription_allowed_types s.transcription_allowed_types,
    pick-over a.approval_prompts s.approval_prompts,
    guard_over a.tool_guard s.tool_guard,
    failure_over a.tool_failure s.tool_failure,
  )

  layered_raised :
      (a : Arguments M O I F) (s : Settings M O F) (x1 x2 x3 x4 : Error ⊎ ℤ) (h : Error ⊎ F)
      (r : Error ⊎ RunContext)
      → unless_raised (only_inline a) (layered a s) x1 x2 x3 x4 h r
        ≡ unless_raised a s x1 x2 x3 x4 h r
  unfolding unless_raised
  layered_raised a s x1 x2 x3 x4 h r = simp (assembled-layered a s)

  -- To give arguments is to write them over the settings: the same configuration comes out, or the
  -- same error.
  pub build_ag_ui_config-layered :
      (default_heartbeat : F) (a : Arguments M O I F) (s : Settings M O F)
      → build_ag_ui_config default_heartbeat (only_inline a) (layered a s)
        ≡ build_ag_ui_config default_heartbeat a s
  unfolding build_ag_ui_config or_raised
  build_ag_ui_config-layered d a s = rw (
    layered_raised a s,
    pick-over a.attachment_max_bytes s.attachment_max_bytes,
    pick-over a.transcription_max_bytes s.transcription_max_bytes,
    pick-over a.thread_list_limit s.thread_list_limit,
    pick-over a.run_list_limit s.run_list_limit,
    pick-over a.heartbeat_seconds s.heartbeat_seconds,
    context_over a.run_context s.run_context,
  )
