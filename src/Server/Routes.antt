-- ===== src/Server/Routes.antt =====
-- The routes that a server serves (django_ag_ui/agent/agui_server.py, `_build_patterns`).
use django_ag_ui.Base.{String, List, Bool, true, false, [], ◌∷◌, ◌++◌}
use django_ag_ui.Server.{Server}

-- The views of the package.
pub data Served : Type 0 where
  agent : Served
  tools : Served
  runs : Served
  skills : Served
  threads : Served
  attachments : Served
  transcribe : Served

-- One `path(...)`
pub record Route : Type 0 where
  pub pattern : String
  pub view : Served
  pub name : String

abbrev patterns_if : Bool → List Route → List Route → List Route
patterns_if true routes rest = routes ++ rest
patterns_if false routes rest = rest

abbrev route : String → Served → String → Route
route pattern view name = record { pattern = pattern; view = view; name = name }

-- `_build_patterns`
unfoldable pub build_patterns : {Spec : Type 0} → Server Spec → List Route
build_patterns s =
    route "" agent "endpoint"
    ∷ route "tools/" tools "tools"
    ∷ patterns_if s.step_store
        (route "resume/<str:resume_from>/" agent "resume"
          ∷ route "fork/<str:resume_from>/" agent "fork"
          ∷ route "runs/" runs "runs"
          ∷ [])
        (patterns_if s.skills (route "skills/" skills "skills" ∷ []) (
          patterns_if s.conversation_store
            (route "threads/" threads "threads"
              ∷ route "threads/<str:thread_id>/" threads "thread"
              ∷ [])
            (patterns_if s.attachment_store
              (route "attachments/" attachments "attachments"
                ∷ route "attachments/<str:attachment_id>/" attachments "attachment"
                ∷ [])
              (patterns_if s.transcription_backend
                (route "transcribe/" transcribe "transcribe" ∷ []) []))))
