-- ===== src/Uploads/Tests.antt =====
-- One upload and one clip (django_ag_ui/persistence/attachments_view.py and transcribe_view.py).
use django_ag_ui.Base.{ℕ, suc, false, none, some, [], ◌∷◌, codes}
use django_ag_ui.Http.{Method.post}
use django_ag_ui.Uploads.{Upload, Request, AttachmentStore, AttachmentsView, call}
use django_ag_ui.Uploads.Accepted.{Uploaded, call_upload}
use django_ag_ui.Uploads.Transcribe.{TranscribeView}
use django_ag_ui.Uploads.Transcribe as Transcribe
use django_ag_ui.Uploads.Transcribe.Heard.{Heard, call_hears}

abbrev picture : Upload
picture = record { name = codes "a.png"; content_type = some "image/png" }

abbrev upload_request : Request
upload_request = record { method = post; chunks = 4 ∷ 4 ∷ []; files = picture ∷ [] }

-- A store that counts what it saves.
abbrev counting : AttachmentStore ℕ ℕ
counting = record {
  is_null = false;
  save = λ f w. (some w, suc w);
  open_attachment = λ k w. (some none, w);
  delete = λ k w. (some tt, w);
}

abbrev attachments : AttachmentsView ℕ ℕ
attachments = record {
  authorize = λ r w. none;
  store = counting;
  attachment_max_bytes = 10;
  attachment_allowed_types = "image/png" ∷ [];
}

call_upload_example :
    Uploaded attachments upload_request 0 (call attachments upload_request none 0).1
call_upload_example = call_upload attachments upload_request 0

abbrev clips : TranscribeView ℕ
clips = record {
  authorize = λ r w. none;
  is_null = false;
  transcribe = λ f w. (codes "hello", suc w);
  throttle = none;
  transcription_max_bytes = 10;
  transcription_allowed_types = [];
}

call_hears_example : Heard clips upload_request 0 (Transcribe.call clips upload_request 0).1
call_hears_example = call_hears clips upload_request 0
