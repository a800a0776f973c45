-- ===== src/Uploads/Capped.antt =====
-- When the upload handler stops an upload, and which files pass what the views ask
-- (django_ag_ui/persistence/capped_upload_handler.py, attachments_view.py, transcribe_view.py).
use django_ag_ui.Base.{
  ℕ, zero, suc, ◌+◌, ◌≤◌, String, List, Option, true, false, none, some, [], ◌∷◌, ◌≡◌, refl, sym,
  ap, ◌∙◌, subst, is_empty, ◌||◌, contains, All, Bool-cases, inl, inr, arith,
}
use django_ag_ui.Uploads.{
  Handler, new_handler, over, receive_data_chunk, fed, Upload, Request, only_file, declared_type,
  validate_type, accepted, rejected, of_file, checked,
}

-- The bytes of an upload.
abbrev total : List ℕ → ℕ
total [] = 0
total (n ∷ ns) = n + total ns

over_more : (m a b : ℕ) → over m a ≡ true → over m (a + b) ≡ true
over_more zero a b h = cc h
over_more (suc m) a b h = ground (arith, h)

within : (m a : ℕ) → over m a ≡ false → 1 ≤ m → a ≤ m
within zero a h p = omega (arith, p)
within (suc m) a h p = ground (arith, h)

fed_exceeded :
    (sizes : List ℕ) (h : Handler)
    → h.exceeded ≡ false
    → over h.max_bytes h.received ≡ false
    → (fed sizes h).exceeded ≡ over h.max_bytes (h.received + total sizes)
unfolding fed receive_data_chunk
fed_exceeded [] h e o = e ∙ sym (ap (over h.max_bytes) (omega arith) ∙ o)
fed_exceeded (n ∷ ns) h e o =
    let sums : h.received + n + total ns ≡ h.received + (n + total ns) = omega arith in
    elim (Bool-cases (over h.max_bytes (h.received + n))) [
      | inl b ↦ rw b (
          sym (
            ap (over h.max_bytes) (sym sums) ∙ over_more h.max_bytes (h.received + n) (total ns) b))
      | inr b ↦ rw b (
          fed_exceeded ns (record h { received = h.received + n }) e b ∙ ap (over h.max_bytes) sums)
    ]

fed_received :
    (c : ℕ) (sizes : List ℕ) (h : Handler)
    → 1 ≤ h.max_bytes
    → All (λ n. n ≤ c) sizes
    → over h.max_bytes h.received ≡ false
    → (fed sizes h).received ≤ h.max_bytes + c
unfolding fed receive_data_chunk
fed_received c [] h p a o = omega (arith, within h.max_bytes h.received o p)
fed_received c (n ∷ ns) h p a o =
    let below = within h.max_bytes h.received o p in
    elim (Bool-cases (over h.max_bytes (h.received + n))) [
      | inl b ↦ rw b (omega (arith, below, a.0))
      | inr b ↦ rw b (fed_received c ns (record h { received = h.received + n }) p a.1 b)
    ]

not_over_none : (m : ℕ) → over m 0 ≡ false
not_over_none zero = refl
not_over_none (suc m) = ground arith

-- An upload is refused exactly if a cap is set and the upload is larger, whatever its chunks are;
-- and no more than one chunk beyond the cap is ever read of it.
fed_capped :
    (max_bytes c : ℕ) (sizes : List ℕ)
    → All (λ n. n ≤ c) sizes
    → ((fed sizes (new_handler max_bytes)).exceeded ≡ over max_bytes (total sizes))
      × (1 ≤ max_bytes → (fed sizes (new_handler max_bytes)).received ≤ max_bytes + c)
fed_capped max_bytes c sizes a = (
  fed_exceeded sizes (new_handler max_bytes) refl (not_over_none max_bytes)
      ∙ ap (over max_bytes) (omega arith),
  λ p. fed_received c sizes (new_handler max_bytes) p a (not_over_none max_bytes),
)

-- The file is the only one, within the cap, of an allowed type.
abbrev pub Fits : ℕ → List String → Request → Upload → Type 0
Fits max_bytes allowed_types r f =
    (over max_bytes (total r.chunks) ≡ false)
    × (r.files ≡ f ∷ [])
    × ((is_empty allowed_types || contains allowed_types (declared_type f.content_type)) ≡ true)

only_file_lem : (fs : List Upload) (f : Upload) → only_file fs ≡ some f → fs ≡ f ∷ []
only_file_lem [] f h = cc h
only_file_lem (g ∷ []) f h = let q : g ≡ f = cc h in ap (λ z. z ∷ []) q
only_file_lem (g ∷ g' ∷ fs) f h = cc h

of_file_lem :
    (o : Option Upload) (allowed_types : List String) (f : Upload)
    → of_file o allowed_types ≡ accepted f
    → (o ≡ some f)
      × ((is_empty allowed_types || contains allowed_types (declared_type f.content_type)) ≡ true)
unfolding of_file validate_type
of_file_lem none allowed_types f h = cc h
of_file_lem (some g) allowed_types f h = elim (Bool-cases (validate_type g allowed_types)) [
  | inl b ↦
      let e : accepted g ≡ accepted f = rw b at h in
      let q : g ≡ f = cc e in (ap some q, subst (λ z. validate_type z allowed_types ≡ true) q b)
  | inr b ↦ let e : rejected 415 ≡ accepted f = rw b at h in cc e
]

pub checked-Fits :
    (max_bytes : ℕ) (allowed_types : List String) (r : Request) (f : Upload)
    → checked max_bytes allowed_types r ≡ accepted f
    → Fits max_bytes allowed_types r f
unfolding checked
checked-Fits max_bytes allowed_types r f h =
    let e : (fed r.chunks (new_handler max_bytes)).exceeded ≡ over max_bytes (total r.chunks) =
      fed_exceeded r.chunks (new_handler max_bytes) refl (not_over_none max_bytes)
      ∙ ap (over max_bytes) (omega arith) in
    elim (Bool-cases (fed r.chunks (new_handler max_bytes)).exceeded) [
      | inl b ↦ let g : rejected 413 ≡ accepted f = rw b at h in cc g
      | inr b ↦
          let g : of_file (only_file r.files) allowed_types ≡ accepted f = rw b at h in
          let o = of_file_lem (only_file r.files) allowed_types f g in
          (sym e ∙ b, only_file_lem r.files f o.0, o.1)
    ]
