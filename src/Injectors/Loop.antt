-- ===== src/Injectors/Loop.antt =====
-- The loop of one injector: what goes out, and when
-- (django_ag_ui/agent/inject_compaction_events.py and inject_invalidation_events.py).
use mathlib.Core.List.{map-append}
use django_ag_ui.Base.{
  List, Bool, true, false, some, [], ◌∷◌, ◌++◌, ◌≡◌, refl, sym, ap, ◌∙◌, map, append_assoc,
  append-nil,
}
use django_ag_ui.Injectors.{Shown, Act, publishes, requests, emits, Sink, drained, flushed, inject}

append_nil : {A : Type 0} (xs ys : List A) → xs ++ ys ≡ [] → (xs ≡ []) × (ys ≡ [])
append_nil [] ys h = (refl, h)
append_nil (x ∷ xs) ys h = cc h

module _ {E X : Type 0} (sel : Shown E → List X) where
  -- What is selected of the events, in order.
  abbrev pub of_shown : List (Act E) → List X
  of_shown [] = []
  of_shown (emits e ∷ acts) = sel e ++ of_shown acts
  of_shown (publishes keys reason ∷ acts) = of_shown acts
  of_shown (requests before after ∷ acts) = of_shown acts

  of_shown-append : (xs ys : List (Act E)) → of_shown (xs ++ ys) ≡ of_shown xs ++ of_shown ys
  of_shown-append [] ys = refl
  of_shown-append (emits e ∷ xs) ys =
      ap (λ l. sel e ++ l) (of_shown-append xs ys)
      ∙ sym (append_assoc (sel e) (of_shown xs) (of_shown ys))
  of_shown-append (publishes keys reason ∷ xs) ys = of_shown-append xs ys
  of_shown-append (requests before after ∷ xs) ys = of_shown-append xs ys

-- All that is shown.
abbrev pub every : {E : Type 0} → Shown E → List (Shown E)
every e = e ∷ []

module _ {E N : Type 0} (note : Act E → List N) where
  -- What the acts put on the sink, in order.
  abbrev pub notes : List (Act E) → List N
  notes [] = []
  notes (a ∷ acts) = note a ++ notes acts

  notes-append : (xs ys : List (Act E)) → notes (xs ++ ys) ≡ notes xs ++ notes ys
  notes-append [] ys = refl
  notes-append (a ∷ xs) ys =
      ap (λ l. note a ++ l) (notes-append xs ys) ∙ sym (append_assoc (note a) (notes xs) (notes ys))

module _ {E N : Type 0} (show : N → Shown E) (on_sink : Act E → Sink N → Sink N)
    (note : Act E → List N)
    (noted : (a : Act E) (s : List N) → on_sink a (some s) ≡ some (s ++ note a)) where
  abbrev go : Bool → List N → List (Act E) → List (Act E)
  go fails s acts = inject show on_sink fails (some s) acts

  abbrev shows : List N → List (Act E)
  shows s = map (λ n. emits (show n)) s

  go-note :
      (fails : Bool) (a : Act E) (s : List N) (xs : List (Act E))
      → inject show on_sink fails (on_sink a (some s)) xs ≡ go fails (s ++ note a) xs
  go-note fails a s xs = ap (λ z. inject show on_sink fails z xs) (noted a s)

  pub inject-split :
      (fails : Bool) (s : List N) (xs : List (Act E)) (e : Shown E) (ys : List (Act E))
      → go fails s (xs ++ emits e ∷ ys) ≡ go false s xs ++ emits e ∷ go fails [] ys
  unfolding inject drained flushed
  inject-split fails s [] e ys = refl
  inject-split fails s (emits d ∷ xs) e ys =
      ap (λ l. shows s ++ emits d ∷ l) (inject-split fails [] xs e ys)
      ∙ sym (append_assoc (shows s) (emits d ∷ go false [] xs) (emits e ∷ go fails [] ys))
  inject-split fails s (publishes k r ∷ xs) e ys =
      ap (λ l. publishes k r ∷ l)
        (go-note fails (publishes k r) s (xs ++ emits e ∷ ys)
          ∙ inject-split fails (s ++ note (publishes k r)) xs e ys
          ∙ ap (λ l. l ++ emits e ∷ go fails [] ys) (sym (go-note false (publishes k r) s xs)))
  inject-split fails s (requests b a ∷ xs) e ys =
      ap (λ l. requests b a ∷ l)
        (go-note fails (requests b a) s (xs ++ emits e ∷ ys)
          ∙ inject-split fails (s ++ note (requests b a)) xs e ys
          ∙ ap (λ l. l ++ emits e ∷ go fails [] ys) (sym (go-note false (requests b a) s xs)))

  -- An upstream that raises after acts that produce no event: nothing goes out.
  pub of_shown-raised :
      (s : List N) (acts : List (Act E))
      → of_shown every acts ≡ []
      → of_shown every (go true s acts) ≡ []
  unfolding inject drained flushed
  of_shown-raised s [] h = refl
  of_shown-raised s (emits e ∷ acts) h = cc h
  of_shown-raised s (publishes k r ∷ acts) h =
      ap (of_shown every) (go-note true (publishes k r) s acts)
      ∙ of_shown-raised (s ++ note (publishes k r)) acts h
  of_shown-raised s (requests b a ∷ acts) h =
      ap (of_shown every) (go-note true (requests b a) s acts)
      ∙ of_shown-raised (s ++ note (requests b a)) acts h

  module _ {X : Type 0} (sel : Shown E → List X) (hides : (n : N) → sel (show n) ≡ []) where
    hidden : (s : List N) → of_shown sel (shows s) ≡ []
    hidden [] = refl
    hidden (n ∷ s) = ap (λ l. l ++ of_shown sel (shows s)) (hides n) ∙ hidden s

    -- What the injector does not put in stays as it is.
    pub of_shown-inject :
        (s : List N) (acts : List (Act E)) → of_shown sel (go false s acts) ≡ of_shown sel acts
    unfolding inject drained flushed
    of_shown-inject s [] = hidden s
    of_shown-inject s (emits e ∷ acts) =
        of_shown-append sel (shows s) (emits e ∷ go false [] acts)
        ∙ ap (λ l. l ++ of_shown sel (emits e ∷ go false [] acts)) (hidden s)
        ∙ ap (λ l. sel e ++ l) (of_shown-inject [] acts)
    of_shown-inject s (publishes k r ∷ acts) =
        ap (of_shown sel) (go-note false (publishes k r) s acts)
        ∙ of_shown-inject (s ++ note (publishes k r)) acts
    of_shown-inject s (requests b a ∷ acts) =
        ap (of_shown sel) (go-note false (requests b a) s acts)
        ∙ of_shown-inject (s ++ note (requests b a)) acts

  module _ {X : Type 0} (sel : Shown E → List X) (pick : N → X)
      (picks : (n : N) → sel (show n) ≡ pick n ∷ [])
      (silent : (e : Shown E) → note (emits e) ≡ []) where
    picked : (s : List N) → of_shown sel (shows s) ≡ map pick s
    picked [] = refl
    picked (n ∷ s) =
        ap (λ l. l ++ of_shown sel (shows s)) (picks n) ∙ ap (λ l. pick n ∷ l) (picked s)

    -- What the injector alone puts in is what was put on the sink.
    pub of_shown-notes :
        (s : List N) (acts : List (Act E))
        → of_shown sel acts ≡ []
        → of_shown sel (go false s acts) ≡ map pick (s ++ notes note acts)
    unfolding inject drained flushed
    of_shown-notes s [] h = picked s ∙ ap (map pick) (sym (append-nil s))
    of_shown-notes s (emits e ∷ acts) h =
        let q = append_nil (sel e) (of_shown sel acts) h in
        of_shown-append sel (shows s) (emits e ∷ go false [] acts)
        ∙ ap (λ l. l ++ of_shown sel (emits e ∷ go false [] acts)) (picked s)
        ∙ ap (λ l. map pick s ++ (l ++ of_shown sel (go false [] acts))) q.0
        ∙ ap (λ l. map pick s ++ l) (of_shown-notes [] acts q.1)
        ∙ sym (map-append pick s (notes note acts))
        ∙ ap (λ l. map pick (s ++ (l ++ notes note acts))) (sym (silent e))
    of_shown-notes s (publishes k r ∷ acts) h =
        ap (of_shown sel) (go-note false (publishes k r) s acts)
        ∙ of_shown-notes (s ++ note (publishes k r)) acts h
        ∙ ap (map pick) (append_assoc s (note (publishes k r)) (notes note acts))
    of_shown-notes s (requests b a ∷ acts) h =
        ap (of_shown sel) (go-note false (requests b a) s acts)
        ∙ of_shown-notes (s ++ note (requests b a)) acts h
        ∙ ap (map pick) (append_assoc s (note (requests b a)) (notes note acts))

  module _ {X : Type 0} (other : Act E → List X)
      (silent : (e : Shown E) → other (emits e) ≡ []) where
    unnoted : (s : List N) → notes other (shows s) ≡ []
    unnoted [] = refl
    unnoted (n ∷ s) = ap (λ l. l ++ notes other (shows s)) (silent (show n)) ∙ unnoted s

    -- The other sink is given the same.
    pub notes-inject :
        (s : List N) (acts : List (Act E)) → notes other (go false s acts) ≡ notes other acts
    unfolding inject drained flushed
    notes-inject s [] = unnoted s
    notes-inject s (emits e ∷ acts) =
        notes-append other (shows s) (emits e ∷ go false [] acts)
        ∙ ap (λ l. l ++ notes other (emits e ∷ go false [] acts)) (unnoted s)
        ∙ ap (λ l. other (emits e) ++ l) (notes-inject [] acts)
    notes-inject s (publishes k r ∷ acts) =
        ap (λ l. other (publishes k r) ++ notes other l) (go-note false (publishes k r) s acts)
        ∙ ap (λ l. other (publishes k r) ++ l) (notes-inject (s ++ note (publishes k r)) acts)
    notes-inject s (requests b a ∷ acts) =
        ap (λ l. other (requests b a) ++ notes other l) (go-note false (requests b a) s acts)
        ∙ ap (λ l. other (requests b a) ++ l) (notes-inject (s ++ note (requests b a)) acts)
