-- ===== src/Uploads.antt =====
-- The uploads of django_ag_ui/persistence: capped_upload_handler.py, attachments_view.py and
-- transcribe_view.py. Django's parser of the body, the store, the throttle and the backend are
-- parameters.
pub mod Capped
pub mod Transcribe
pub mod Accepted
mod Tests
use django_ag_ui.Base.{
  ℕ, zero, suc, ◌+◌, String, Text, List, Option, Bool, true, false, none, some, [], ◌∷◌, ◌||◌, not,
  ltb, contains, nat_eq, codes, if◌then◌else◌, is_empty,
}
use django_ag_ui.Http.{
  Method, Method.get, Method.post, Method.delete, Reply, Reply.json, Reply.error, Reply.bare,
  Reply.not_allowed, Reply.auth_error,
}

-- `CappedUploadHandler`
pub record Handler : Type 0 where
  pub max_bytes : ℕ
  exceeded : Bool
  pub received : ℕ

abbrev pub new_handler : ℕ → Handler
new_handler max_bytes = record { max_bytes = max_bytes; exceeded = false; received = 0 }

-- `self.max_bytes and self._received > self.max_bytes`
abbrev pub over : ℕ → ℕ → Bool
over zero received = false
over (suc m) received = ltb (suc m) received

-- What `receive_data_chunk` does with a chunk of a size: it passes it on, or raises `StopUpload`.
pub data Chunk : Type 0 where
  passed : Handler → Chunk
  stopped : Handler → Chunk

-- `receive_data_chunk`
unfoldable pub receive_data_chunk : ℕ → Handler → Chunk
receive_data_chunk size h =
    let received = h.received + size in
    if over h.max_bytes received
    then stopped (record { max_bytes = h.max_bytes; exceeded = true; received = received })
    else passed (record h { received = received })

abbrev carry_on : Chunk → (Handler → Handler) → Handler
carry_on (passed h) next = next h
carry_on (stopped h) next = h

-- Django's parser hands the handler one chunk after the other until it stops the upload.
unfoldable pub fed : List ℕ → Handler → Handler
unfolding receive_data_chunk
fed [] h = h
fed (size ∷ sizes) h = carry_on (receive_data_chunk size h) (λ next. fed sizes next)

pub record Upload : Type 0 where
  pub name : Text
  pub content_type : Option String

-- A request: the chunks of its files as the parser reads them, and the files under the field that
-- the view asks for.
pub record Request : Type 0 where
  pub method : Method
  pub chunks : List ℕ
  pub files : List Upload

-- `_read_upload` and `_read_audio`
abbrev pub only_file : List Upload → Option Upload
only_file (f ∷ []) = some f
only_file _ = none

-- `upload.content_type or ""`
abbrev pub declared_type : Option String → String
declared_type none = ""
declared_type (some t) = t

-- `_validate_type`: an empty allowlist accepts any type.
unfoldable pub validate_type : Upload → List String → Bool
validate_type f allowed_types =
    is_empty allowed_types || contains allowed_types (declared_type f.content_type)

-- A file that may go on, or the status of the refusal.
pub data Check : Type 0 where
  accepted : Upload → Check
  rejected : ℕ → Check

abbrev pub of_file : Option Upload → List String → Check
unfolding validate_type
of_file none allowed_types = rejected 400
of_file (some f) allowed_types = if validate_type f allowed_types then accepted f else rejected 415

-- What `_upload` and `TranscribeView.__call__` ask of the body, in this order.
unfoldable pub checked : ℕ → List String → Request → Check
unfolding fed of_file
checked max_bytes allowed_types r =
    let guard = fed r.chunks (new_handler max_bytes) in
    if guard.exceeded then rejected 413 else of_file (only_file r.files) allowed_types

-- `_safe_filename`
abbrev unquoted : Text → Text
unquoted [] = []
unquoted (c ∷ s) = if nat_eq c 34 || nat_eq c 13 || nat_eq c 10 then unquoted s else c ∷ unquoted s

abbrev or_attachment : Text → Text
or_attachment [] = codes "attachment"
or_attachment s = s

unfoldable pub safe_filename : Text → Text
safe_filename name = or_attachment (unquoted name)

-- `NullAttachmentStore` is told apart by `is_null`; the other operations give `none` where they
-- raise `AnonymousOperationError`. A found attachment is given by its name.
pub record AttachmentStore (World Ref : Type 0) : Type 0 where
  pub is_null : Bool
  pub save : Upload → World → Option Ref × World
  pub open_attachment : String → World → Option (Option Text) × World
  pub delete : String → World → Option (Unit {0}) × World

pub record AttachmentsView (World Ref : Type 0) : Type 0 where
  pub authorize : Request → World → Option ℕ
  pub store : AttachmentStore World Ref
  pub attachment_max_bytes : ℕ
  pub attachment_allowed_types : List String

pub data File (Ref : Type 0) : Type 0 where
  saved : Ref → File Ref
  download : Text → File Ref

module _ {World Ref : Type 0} (v : AttachmentsView World Ref) (r : Request) where
  pub or_403 : {A : Type 0} → (A → Reply (File Ref)) → Option A × World → Reply (File Ref) × World
  or_403 f (none, w) = (auth_error 403, w)
  or_403 f (some a, w) = (f a, w)

  pub saved_if : Check → World → Reply (File Ref) × World
  unfolding or_403
  saved_if (rejected code) w = (error code, w)
  saved_if (accepted f) w = or_403 (λ ref. json 201 (saved ref)) (v.store.save f w)

  -- `_upload`
  pub upload : Method → World → Reply (File Ref) × World
  unfolding saved_if checked
  upload Method.post w =
      if v.store.is_null
      then (error 410, w)
      else saved_if (checked v.attachment_max_bytes v.attachment_allowed_types r) w
  upload _ w = (not_allowed (post ∷ []), w)

  pub found : Option Text → Reply (File Ref)
  unfolding safe_filename
  found none = error 404
  found (some name) = json 200 (download (safe_filename name))

  -- `_detail`
  pub detail : String → Method → World → Reply (File Ref) × World
  unfolding or_403 found
  detail k Method.get w = or_403 found (v.store.open_attachment k w)
  detail k Method.delete w = or_403 (λ u. bare 204) (v.store.delete k w)
  detail k _ w = (not_allowed (get ∷ delete ∷ []), w)

  pub routed : Option String → World → Reply (File Ref) × World
  unfolding upload detail
  routed none w = upload r.method w
  routed (some k) w = detail k r.method w

  pub unless_denied : Option String → World → Option ℕ → Reply (File Ref) × World
  unfolding routed
  unless_denied k w (some code) = (auth_error code, w)
  unless_denied k w none = routed k w

  -- `AttachmentsView.__call__`
  unfoldable pub call : Option String → World → Reply (File Ref) × World
  unfolding unless_denied
  call k w = unless_denied k w (v.authorize r w)
