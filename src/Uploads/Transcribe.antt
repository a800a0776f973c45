-- ===== src/Uploads/Transcribe.antt =====
-- django_ag_ui/persistence/transcribe_view.py: a clip is transcribed once it has passed the guards.
pub mod Heard
use django_ag_ui.Base.{
  ℕ, String, Text, List, Option, Bool, true, false, none, some, [], ◌∷◌, if◌then◌else◌,
}
use django_ag_ui.Http.{Method, Method.post}
use django_ag_ui.Uploads.{Upload, Request, Check, Check.accepted, Check.rejected, checked}

-- The backend, told apart from `NullTranscriptionBackend` by `is_null`.
pub record TranscribeView (World : Type 0) : Type 0 where
  pub authorize : Request → World → Option ℕ
  pub is_null : Bool
  pub transcribe : Upload → World → Text × World
  pub throttle : Option (World → Option ℕ × World)
  pub transcription_max_bytes : ℕ
  pub transcription_allowed_types : List String

-- The responses of `__call__`.
pub data Response : Type 0 where
  text : Text → Response
  rate_limited : ℕ → Response
  failed : ℕ → Response

module _ {World : Type 0} (v : TranscribeView World) (r : Request) where
  pub heard : Text × World → Response × World
  heard (t, w) = (text t, w)

  pub transcribed_if : Check → World → Response × World
  unfolding heard
  transcribed_if (rejected code) w = (failed code, w)
  transcribed_if (accepted f) w = heard (v.transcribe f w)

  -- `_throttled`
  unfoldable pub throttled : Option (World → Option ℕ × World) → World → Option ℕ × World
  throttled none w = (none, w)
  throttled (some consume) w = consume w

  pub limited : Option ℕ × World → Response × World
  unfolding transcribed_if checked
  limited (some retry_after, w) = (rate_limited retry_after, w)
  limited (none, w) =
      transcribed_if (checked v.transcription_max_bytes v.transcription_allowed_types r) w

  pub by_method : Method → World → Response × World
  unfolding limited throttled
  by_method Method.post w = if v.is_null then (failed 410, w) else limited (throttled v.throttle w)
  by_method _ w = (failed 405, w)

  pub unless_denied : World → Option ℕ → Response × World
  unfolding by_method
  unless_denied w (some code) = (failed code, w)
  unless_denied w none = by_method r.method w

  -- `TranscribeView.__call__`
  unfoldable pub call : World → Response × World
  unfolding unless_denied
  call w = unless_denied w (v.authorize r w)
