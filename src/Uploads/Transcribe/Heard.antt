-- ===== src/Uploads/Transcribe/Heard.antt =====
-- When a posted clip reaches the transcription backend
-- (django_ag_ui/persistence/transcribe_view.py).
use django_ag_ui.Base.{
  ℕ, Text, Option, Bool, true, false, none, some, ◌≡◌, ◌≢◌, sym, ◌∙◌, ◌⊎◌, inl, inr, refl,
  if◌then◌else◌,
}
use django_ag_ui.Http.{Method, Method.post}
use django_ag_ui.Uploads.{Upload, Request, Check, accepted, rejected, checked}
use django_ag_ui.Uploads.Capped.{Fits, checked-Fits}
use django_ag_ui.Uploads.Transcribe.{
  TranscribeView, Response.failed, heard, transcribed_if, throttled, limited, by_method,
  unless_denied, call,
}

module _ {World : Type 0} (v : TranscribeView World) (r : Request) where
  -- The backend is left alone: the throttle refused the request, or the clip is rejected.
  abbrev Unheard : Option ℕ → Type 0
  Unheard retry_after =
      (retry_after ≢ none)
      ⊎ ((code : ℕ) × (checked v.transcription_max_bytes v.transcription_allowed_types r
            ≡ rejected code))

  -- The world after a request that the throttle was asked for, given what it said.
  abbrev Limited : Option ℕ × World → World → Type 0
  Limited p w' =
      (Unheard p.0 × (w' ≡ p.1))
      ⊎ ((f : Upload) × (p.0 ≡ none)
          × Fits v.transcription_max_bytes v.transcription_allowed_types r f
          × (w' ≡ (v.transcribe f p.1).1))

  -- The request is refused before the throttle is asked.
  abbrev Stopped : World → Type 0
  Stopped w = (v.authorize r w ≢ none) ⊎ (r.method ≢ post) ⊎ (v.is_null ≡ true)

  -- The world after a request: as it was, for one that is stopped; or charged by the throttle, with
  -- the backend left alone because the throttle refuses or the clip is rejected; or, once the
  -- throttle let the request through, changed by the backend that heard a clip that fits.
  abbrev pub Heard : World → World → Type 0
  Heard w w' =
      (Stopped w × (w' ≡ w))
      ⊎ ((v.authorize r w ≡ none)
          × (r.method ≡ post)
          × (v.is_null ≡ false)
          × Limited (throttled v r v.throttle w) w')

  heard_world : (p : Text × World) → (heard v r p).1 ≡ p.1
  unfolding heard
  heard_world (t, w) = refl

  checked_lem :
      (w : World) (c : Check)
      → checked v.transcription_max_bytes v.transcription_allowed_types r ≡ c
      → Limited (none, w) (transcribed_if v r c w).1
  unfolding transcribed_if
  checked_lem w (rejected code) e = inl (inr (code, e), refl)
  checked_lem w (accepted f) e = inr (
    f,
    refl,
    checked-Fits v.transcription_max_bytes v.transcription_allowed_types r f e,
    heard_world (v.transcribe f w),
  )

  limited_lem : (p : Option ℕ × World) → Limited p (limited v r p).1
  unfolding limited
  limited_lem (some retry_after, w) = inl (inl (λ q. cc q), refl)
  limited_lem (none, w) =
      checked_lem w (checked v.transcription_max_bytes v.transcription_allowed_types r) refl

  enabled_lem :
      (w : World) (b : Bool)
      → v.authorize r w ≡ none
      → r.method ≡ post
      → v.is_null ≡ b
      → Heard w (if b then (failed 410, w) else limited v r (throttled v r v.throttle w)).1
  enabled_lem w true a m n = inl (inr (inr n), refl)
  enabled_lem w false a m n = inr (a, m, n, limited_lem (throttled v r v.throttle w))

  by_method_lem :
      (w : World) (m : Method)
      → v.authorize r w ≡ none
      → r.method ≡ m
      → Heard w (by_method v r m w).1
  unfolding by_method
  by_method_lem w Method.post a e = enabled_lem w v.is_null a e refl
  by_method_lem w Method.get a e =
      inl (inr (inl (λ q. let clash : Method.get ≡ post = sym e ∙ q in cc clash)), refl)
  by_method_lem w Method.patch a e =
      inl (inr (inl (λ q. let clash : Method.patch ≡ post = sym e ∙ q in cc clash)), refl)
  by_method_lem w Method.delete a e =
      inl (inr (inl (λ q. let clash : Method.delete ≡ post = sym e ∙ q in cc clash)), refl)
  by_method_lem w Method.other_method a e =
      inl (inr (inl (λ q. let clash : Method.other_method ≡ post = sym e ∙ q in cc clash)), refl)

  denied_lem : (w : World) (o : Option ℕ) → v.authorize r w ≡ o → Heard w (unless_denied v r w o).1
  unfolding unless_denied
  denied_lem w (some code) e =
      inl (inl (λ q. let clash : some code ≡ none = sym e ∙ q in cc clash), refl)
  denied_lem w none e = by_method_lem w r.method e refl

  -- A request that is not allowed, is no POST or finds transcription disabled changes nothing. Any
  -- other charges the throttle, whatever the clip; where the throttle refuses or the clip is
  -- rejected nothing else changes, and else the backend hears the clip, which is the only one posted,
  -- is of an allowed type and is within the cap.
  pub call_hears : (w : World) → Heard w (call v r w).1
  unfolding call
  call_hears w = denied_lem w (v.authorize r w) refl
