-- ===== src/Threads/Requests/Guarded.antt =====
-- What the requests of django_ag_ui/persistence/threads_view.py may change, and the bounds they
-- keep.
use django_ag_ui.Base.{
  ℕ, ◌≤◌, ◌<◌, String, Text, Option, Bool, true, false, none, some, [], ◌∷◌, ◌≡◌, ◌≢◌, ◌⊎◌, inl,
  inr, refl, subst, sym, ap, ◌∙◌, length, take, length-take, is_empty, arith, if◌then◌else◌,
}
use django_ag_ui.Base.Dict.{lookup}
use django_ag_ui.Base.Int.{pos, negsuc}
use django_ag_ui.Base.Spaces.{strip}
use django_ag_ui.Http.{Reply, Method, Method.patch}
use django_ag_ui.Threads.{
  Decoded, Decoded.object, Decoded.refused, Decoded.no_object, parse_title, capped_title, title_of,
  Limit, Limit.not_given, Limit.no_integer, Limit.integer, effective_limit, max_title_len,
}
use django_ag_ui.Threads.Requests.{
  Request, Page, ThreadsView, call, unless_denied, routed, detail, rename_to, if_exists, or_403,
  list_threads,
}

-- A title that may be stored.
abbrev Title : Text → Type 0
Title t = (1 ≤ length t) × (length t ≤ 255)

cut_lem :
    (s t : Text) → (if is_empty s then none else some (take max_title_len s)) ≡ some t → Title t
cut_lem [] t h = cc h
cut_lem (c ∷ s) t h =
    let e : take max_title_len (c ∷ s) ≡ t = cc h in
    subst Title e (
      omega (arith, length-take max_title_len (c ∷ s)),
      omega (arith, length-take max_title_len (c ∷ s)),
    )

capped_title_lem : (o : Option Text) (t : Text) → capped_title o ≡ some t → Title t
unfolding capped_title
capped_title_lem none t h = cc h
capped_title_lem (some title) t h = cut_lem (strip title) t h

parse_title-Title : (b : Decoded) (t : Text) → parse_title b ≡ some t → Title t
unfolding parse_title
parse_title-Title (object fields) t h = capped_title_lem (title_of (lookup "title" fields)) t h
parse_title-Title refused t h = cc h
parse_title-Title no_object t h = cc h

-- What was asked for is what is used, or it is not between one and the cap.
abbrev Answered : Limit → ℕ → ℕ → Type 0
Answered (integer (pos n)) cap used = (used ≡ n) ⊎ ((n ≡ 0) ⊎ (cap < n))
Answered l cap used = Unit

some_or_none : (cap : ℕ) → (cap ≡ 0) ⊎ (1 ≤ cap)
some_or_none cap = ground arith

-- The limit that the store is asked for is never above the configured one, is at least one where
-- that one is, and is the number asked for wherever that number is between the two.
effective_limit_bounds :
    (l : Limit) (cap : ℕ)
    → (effective_limit l cap ≤ cap)
      × ((cap ≡ 0) ⊎ (1 ≤ effective_limit l cap))
      × Answered l cap (effective_limit l cap)
unfolding effective_limit
effective_limit_bounds not_given cap = (omega arith, some_or_none cap, tt)
effective_limit_bounds no_integer cap = (omega arith, some_or_none cap, tt)
effective_limit_bounds (integer (negsuc n)) cap = (omega arith, some_or_none cap, tt)
effective_limit_bounds (integer (pos m)) cap = (ground arith, ground arith, ground arith)

module _ {World Meta : Type 0} (v : ThreadsView World Meta) (request : Request) where
  abbrev allowed : Option String → Method → Bool
  allowed none Method.get = true
  allowed (some k) Method.get = true
  allowed (some k) Method.patch = true
  allowed (some k) Method.delete = true
  allowed _ _ = false

  -- The store after a PATCH: as it was, or as the look for the thread left it, or renamed to a
  -- title that may be stored, the thread having been found.
  abbrev pub Patched : String → World → World → Type 0
  Patched thread_id w w' =
      (w' ≡ w)
      ⊎ ((w' ≡ (v.store.exists request thread_id w).1)
          ⊎ ((title : Text) × (parse_title request.body ≡ some title)
              × Title title
              × ((v.store.exists request thread_id w).0 ≡ some true)
              × (w'
                  ≡ (v.store.rename request thread_id title
                      (v.store.exists request thread_id w).1).1)))

  or_403_world :
      {A : Type 0} (f : A → World → Reply (Page Meta) × World) (p : Option A × World)
      → ((a : A) → (f a p.1).1 ≡ p.1)
      → (or_403 v request f p).1 ≡ p.1
  unfolding or_403
  or_403_world f (none, w) h = refl
  or_403_world f (some a, w) h = h a

  renamed_world :
      (thread_id : String) (title : Text) (w : World) (b : Bool)
      → ((if_exists v request thread_id title b w).1 ≡ w)
        ⊎ ((b ≡ true)
            × ((if_exists v request thread_id title b w).1
                ≡ (v.store.rename request thread_id title w).1))
  unfolding if_exists
  renamed_world thread_id title w false = inl refl
  renamed_world thread_id title w true =
      inr (refl, or_403_world _ (v.store.rename request thread_id title w) (λ u. refl))

  probed :
      (thread_id : String) (title : Text) (w : World) (p : Option Bool × World)
      → parse_title request.body ≡ some title
      → v.store.exists request thread_id w ≡ p
      → Patched thread_id w (or_403 v request (if_exists v request thread_id title) p).1
  unfolding or_403
  probed thread_id title w (none, w') t e = inr (inl (sym (ap (λ z. z.1) e)))
  probed thread_id title w (some b, w') t e = elim (renamed_world thread_id title w' b) [
    | inl h ↦ inr (inl (h ∙ sym (ap (λ z. z.1) e)))
    | inr (y, h) ↦ inr (
        inr (
          title,
          t,
          parse_title-Title request.body title t,
          ap (λ z. z.0) e ∙ ap some y,
          h ∙ ap (λ z. (v.store.rename request thread_id title z).1) (sym (ap (λ z. z.1) e)),
        ))
  ]

  rename_to_lem :
      (thread_id : String) (w : World) (o : Option Text)
      → parse_title request.body ≡ o
      → Patched thread_id w (rename_to v request thread_id o w).1
  unfolding rename_to
  rename_to_lem thread_id w none t = inl refl
  rename_to_lem thread_id w (some title) t =
      probed thread_id title w (v.store.exists request thread_id w) t refl

  detail_patch :
      (thread_id : String) (w : World) (m : Method)
      → m ≡ patch
      → Patched thread_id w (detail v request thread_id m w).1
  unfolding detail
  detail_patch thread_id w m e =
      subst (λ z. Patched thread_id w (detail v request thread_id z w).1) (sym e)
        (rename_to_lem thread_id w (parse_title request.body) refl)

  patched :
      (thread_id : String) (w : World) (o : Option ℕ)
      → request.method ≡ patch
      → Patched thread_id w (unless_denied v request (some thread_id) w o).1
  unfolding unless_denied routed
  patched thread_id w (some code) m = inl refl
  patched thread_id w none m = detail_patch thread_id w request.method m

  denied :
      (thread_id : Option String) (w : World) (o : Option ℕ)
      → o ≢ none
      → (unless_denied v request thread_id w o).1 ≡ w
  unfolding unless_denied
  denied thread_id w none n = absurd (n refl)
  denied thread_id w (some code) n = refl

  list_refused :
      (w : World) (m : Method) → allowed none m ≡ false → (list_threads v request m w).1 ≡ w
  unfolding list_threads
  list_refused w Method.get a = cc a
  list_refused w _ a = refl

  detail_refused :
      (k : String) (w : World) (m : Method)
      → allowed (some k) m ≡ false
      → (detail v request k m w).1 ≡ w
  unfolding detail
  detail_refused k w Method.get a = cc a
  detail_refused k w Method.patch a = cc a
  detail_refused k w Method.delete a = cc a
  detail_refused k w _ a = refl

  not_offered :
      (thread_id : Option String) (w : World) (o : Option ℕ)
      → allowed thread_id request.method ≡ false
      → (unless_denied v request thread_id w o).1 ≡ w
  unfolding unless_denied routed
  not_offered thread_id w (some code) a = refl
  not_offered none w none a = list_refused w request.method a
  not_offered (some k) w none a = detail_refused k w request.method a

  -- A PATCH of a thread renames it only after the body held a title of 1 to 255 characters once
  -- stripped and cut, and the store found the thread; otherwise the store is as the look for the
  -- thread left it, or as it was.
  pub call_patch :
      (thread_id : String) (w : World)
      → request.method ≡ patch
      → Patched thread_id w (call v request (some thread_id) w).1
  unfolding call
  call_patch thread_id w m = patched thread_id w (v.authorize request w) m

  -- A request that is denied, or whose method its route does not offer, leaves the store as it is.
  call_refused :
      (thread_id : Option String) (w : World)
      → ((v.authorize request w ≢ none) ⊎ (allowed thread_id request.method ≡ false))
      → (call v request thread_id w).1 ≡ w
  unfolding call
  call_refused thread_id w (inl n) = denied thread_id w (v.authorize request w) n
  call_refused thread_id w (inr a) = not_offered thread_id w (v.authorize request w) a
