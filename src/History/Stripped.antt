-- ===== src/History/Stripped.antt =====
-- What the strip of inlined files leaves (django_ag_ui/agent/strip_binary_content.py).
use django_ag_ui.Base.{
  String, List, Bool, true, false, [], ◌∷◌, ◌++◌, ◌≡◌, refl, sym, ap, ap₂, ◌∙◌, subst, not, length,
  nat_eq, nat_eq_iff, map, All, keep_if_whole, keep_if-All, All-keep_if, append_assoc, append-nil,
  if◌then◌else◌,
}
use django_ag_ui.Wire.{
  Part, plain, parts, Body, Message, user, system, assistant, tool, reasoning, activity,
}
use django_ag_ui.History.{
  is_inline_binary, others, with_parts, kept_parts, kept_message, strip_binary_content,
}

-- A list of parts is not empty and holds no inlined file.
abbrev CleanParts : List Part → Type 0
CleanParts [] = ⊥
CleanParts (p ∷ ps) = All (λ q. not (is_inline_binary q) ≡ true) (p ∷ ps)

abbrev CleanBody : Body → Type 0
CleanBody (user (parts ps)) = CleanParts ps
CleanBody b = Unit

abbrev pub Clean : Message → Type 0
Clean m = CleanBody m.body

-- What a message shows: a part that is no inlined file, or all of a message without parts.
pub data Shown : Type 0 where
  part : String → Part → Shown
  whole : Message → Shown

abbrev shown_body : Message → Body → List Shown
shown_body m (user (parts ps)) = map (part m.id) (others ps)
shown_body m b = whole m ∷ []

abbrev pub shown : List Message → List Shown
shown [] = []
shown (m ∷ ms) = shown_body m m.body ++ shown ms

shown-append : (ms ns : List Message) → shown (ms ++ ns) ≡ shown ms ++ shown ns
shown-append [] ns = refl
shown-append (m ∷ ms) ns =
    ap (λ l. shown_body m m.body ++ l) (shown-append ms ns)
    ∙ sym (append_assoc (shown_body m m.body) (shown ms) (shown ns))

others_twice : (ps : List Part) → others (others ps) ≡ others ps
others_twice ps = keep_if-All _ (others ps) (All-keep_if _ ps)

clean_others : (ps : List Part) → CleanParts ps → others ps ≡ ps
clean_others [] h = absurd h
clean_others (p ∷ ps) h = keep_if-All _ (p ∷ ps) h

-- The message that is kept of one with parts.
module _ (m : Message) (ps : List Part) (b : m.body ≡ user (parts ps)) where
  abbrev Kept : List Message → List Part → Type 0
  Kept ms qs = All Clean ms × (CleanParts ps → ms ≡ m ∷ []) × (shown ms ≡ map (part m.id) qs ++ [])

  body-Clean : CleanParts ps → Clean m
  body-Clean h = subst CleanBody (sym b) h

  one_kept :
      (q : Part) (qs : List Part) (t : Bool)
      → others ps ≡ q ∷ qs
      → nat_eq (length (q ∷ qs)) (length ps) ≡ t
      → Kept (if t then m ∷ [] else with_parts m (q ∷ qs) ∷ []) (q ∷ qs)
  one_kept q qs true e l =
      let whole_list : others ps ≡ ps =
        keep_if_whole _ ps (ap length e ∙ (nat_eq_iff (length (q ∷ qs)) (length ps)).0 l) in
      let clean : CleanParts (q ∷ qs) =
        subst (All (λ z. not (is_inline_binary z) ≡ true)) e (All-keep_if _ ps) in
      (
        (body-Clean (subst CleanParts (sym e ∙ whole_list) clean), tt),
        λ h. refl,
        ap (λ z. shown_body m z ++ []) b ∙ ap (λ z. map (part m.id) z ++ []) e,
      )
  one_kept q qs false e l =
      let clean : CleanParts (q ∷ qs) =
        subst (All (λ z. not (is_inline_binary z) ≡ true)) e (All-keep_if _ ps) in
      (
        (clean, tt),
        λ h.
            let same : length (q ∷ qs) ≡ length ps = ap length (sym e ∙ clean_others ps h) in
            let clash : false ≡ true = sym l ∙ (nat_eq_iff (length (q ∷ qs)) (length ps)).1 same in
            cc clash,
        ap (λ z. map (part m.id) z ++ []) (clean_others (q ∷ qs) clean),
      )

  kept_lem : (qs : List Part) → others ps ≡ qs → Kept (kept_parts m ps qs) qs
  kept_lem [] e = (tt, λ h. absurd (subst CleanParts (sym (clean_others ps h) ∙ e) h), refl)
  kept_lem (q ∷ qs) e = one_kept q qs (nat_eq (length (q ∷ qs)) (length ps)) e refl

-- What is kept of any message.
abbrev KeptOf : Message → List Message → Body → Type 0
KeptOf m ms b = All Clean ms × (CleanBody b → ms ≡ m ∷ []) × (shown ms ≡ shown_body m b ++ [])

kept_message_lem : (m : Message) (b : Body) → m.body ≡ b → KeptOf m (kept_message m b) b
kept_message_lem m (user (parts ps)) e = kept_lem m ps e (others ps) refl
kept_message_lem m (user (plain t)) e =
    ((subst CleanBody (sym e) tt, tt), λ h. refl, ap (λ z. shown_body m z ++ []) e)
kept_message_lem m (system t) e =
    ((subst CleanBody (sym e) tt, tt), λ h. refl, ap (λ z. shown_body m z ++ []) e)
kept_message_lem m (assistant t c) e =
    ((subst CleanBody (sym e) tt, tt), λ h. refl, ap (λ z. shown_body m z ++ []) e)
kept_message_lem m (tool k t) e =
    ((subst CleanBody (sym e) tt, tt), λ h. refl, ap (λ z. shown_body m z ++ []) e)
kept_message_lem m (reasoning t) e =
    ((subst CleanBody (sym e) tt, tt), λ h. refl, ap (λ z. shown_body m z ++ []) e)
kept_message_lem m (activity k c) e =
    ((subst CleanBody (sym e) tt, tt), λ h. refl, ap (λ z. shown_body m z ++ []) e)

All-append : (P : Message → Type 0) (ms ns : List Message) → All P ms → All P ns → All P (ms ++ ns)
All-append P [] ns h g = g
All-append P (m ∷ ms) ns h g = (h.0, All-append P ms ns h.1 g)

strip_lem :
    (ms : List Message)
    → All Clean (strip_binary_content ms)
      × (All Clean ms → strip_binary_content ms ≡ ms)
      × (shown (strip_binary_content ms) ≡ shown ms)
unfolding strip_binary_content
strip_lem [] = (tt, λ h. refl, refl)
strip_lem (m ∷ ms) =
    let k = kept_message_lem m m.body refl in
    let r = strip_lem ms in
    (
      All-append Clean (kept_message m m.body) (strip_binary_content ms) k.0 r.0,
      λ h. ap₂ ◌++◌ (k.1 h.0) (r.1 h.1),
      shown-append (kept_message m m.body) (strip_binary_content ms)
          ∙ ap₂ ◌++◌ (k.2 ∙ append-nil (shown_body m m.body)) r.2,
    )

-- After the strip no message holds an inlined file and none has an empty list of parts; all that
-- the messages show otherwise is kept, in order and under the same ids; and another strip changes
-- nothing.
pub strip_binary_content-Clean :
    (ms : List Message)
    → All Clean (strip_binary_content ms)
      × (strip_binary_content (strip_binary_content ms) ≡ strip_binary_content ms)
      × (shown (strip_binary_content ms) ≡ shown ms)
strip_binary_content-Clean ms =
    let r = strip_lem ms in (r.0, (strip_lem (strip_binary_content ms)).1 r.0, r.2)
