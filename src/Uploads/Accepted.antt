-- ===== src/Uploads/Accepted.antt =====
-- When a posted file reaches the attachment store
-- (django_ag_ui/persistence/attachments_view.py).
use django_ag_ui.Base.{
  ℕ, Text, Option, Bool, true, false, none, some, [], ◌∷◌, ◌≡◌, ◌≢◌, ◌⊎◌, inl, inr, refl,
  Bool-cases, ◌||◌, nat_eq, All, arith, length, ◌≤◌, if◌then◌else◌,
}
use django_ag_ui.Http.{Reply.error, Method, Method.post}
use django_ag_ui.Uploads.{
  Upload, Request, Check, accepted, rejected, checked, AttachmentsView, or_403, saved_if, upload,
  routed, unless_denied, call, safe_filename, unquoted, or_attachment,
}
use django_ag_ui.Uploads.Capped.{Fits, checked-Fits}

module _ {World Ref : Type 0} (v : AttachmentsView World Ref) (r : Request) where
  -- The store after a request to upload: as it was, or with a file that fits saved for an allowed
  -- POST while attachments are enabled.
  abbrev pub Uploaded : World → World → Type 0
  Uploaded w w' =
      (w' ≡ w)
      ⊎ ((f : Upload) × (v.authorize r w ≡ none)
          × (r.method ≡ post)
          × (v.store.is_null ≡ false)
          × Fits v.attachment_max_bytes v.attachment_allowed_types r f
          × (w' ≡ (v.store.save f w).1))

  or_403_world : {A : Type 0} (f : A → _) (p : Option A × World) → (or_403 v r f p).1 ≡ p.1
  unfolding or_403
  or_403_world f (none, w) = refl
  or_403_world f (some a, w) = refl

  saved_lem :
      (w : World) (c : Check)
      → v.authorize r w ≡ none
      → r.method ≡ post
      → v.store.is_null ≡ false
      → checked v.attachment_max_bytes v.attachment_allowed_types r ≡ c
      → Uploaded w (saved_if v r c w).1
  unfolding saved_if
  saved_lem w (rejected code) a m n e = inl refl
  saved_lem w (accepted f) a m n e = inr (
    f,
    a,
    m,
    n,
    checked-Fits v.attachment_max_bytes v.attachment_allowed_types r f e,
    or_403_world _ (v.store.save f w),
  )

  enabled_lem :
      (w : World) (b : Bool)
      → v.authorize r w ≡ none
      → r.method ≡ post
      → v.store.is_null ≡ b
      → Uploaded w
          (if b
            then (error 410, w)
            else saved_if v r (checked v.attachment_max_bytes v.attachment_allowed_types r) w).1
  enabled_lem w true a m n = inl refl
  enabled_lem w false a m n =
      saved_lem w (checked v.attachment_max_bytes v.attachment_allowed_types r) a m n refl

  upload_lem :
      (w : World) (m : Method)
      → v.authorize r w ≡ none
      → r.method ≡ m
      → Uploaded w (upload v r m w).1
  unfolding upload
  upload_lem w Method.post a e = enabled_lem w v.store.is_null a e refl
  upload_lem w _ a e = inl refl

  denied_lem :
      (w : World) (o : Option ℕ) → v.authorize r w ≡ o → Uploaded w (unless_denied v r none w o).1
  unfolding unless_denied routed
  denied_lem w (some code) e = inl refl
  denied_lem w none e = upload_lem w r.method e refl

  -- A request to upload changes the store only by saving a file that is the only one posted, is of
  -- an allowed type and is within the cap, and only for an allowed POST while attachments are
  -- enabled.
  pub call_upload : (w : World) → Uploaded w (call v r none w).1
  unfolding call
  call_upload w = denied_lem w (v.authorize r w) refl

abbrev pub Plain : ℕ → Type 0
Plain c = (c ≢ 34) × (c ≢ 13) × (c ≢ 10)

unquoted-Plain : (s : Text) → All Plain (unquoted s)
unquoted-Plain [] = tt
unquoted-Plain (c ∷ s) = elim (Bool-cases (nat_eq c 34 || nat_eq c 13 || nat_eq c 10)) [
  | inl b ↦ rw b (unquoted-Plain s)
  | inr b ↦ rw b ((ground (arith, b), ground (arith, b), ground (arith, b)), unquoted-Plain s)
]

or_attachment_lem :
    (s : Text) → All Plain s → (1 ≤ length (or_attachment s)) × All Plain (or_attachment s)
or_attachment_lem [] h = (omega arith, ground arith)
or_attachment_lem (c ∷ s) h = (omega arith, h)

-- The file name of a download is not empty and holds no quote and no line break.
safe_filename-Plain :
    (name : Text) → (1 ≤ length (safe_filename name)) × All Plain (safe_filename name)
unfolding safe_filename
safe_filename-Plain name = or_attachment_lem (unquoted name) (unquoted-Plain name)
