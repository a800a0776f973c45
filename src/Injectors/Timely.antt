-- ===== src/Injectors/Timely.antt =====
-- What the client sees of the two sinks, and when (django_ag_ui/agent/inject_compaction_events.py
-- and inject_invalidation_events.py).
use django_ag_ui.Base.{
  ℕ, ◌-◌, List, Bool, true, false, some, [], ◌∷◌, ◌++◌, ◌≡◌, refl, sym, ap, ◌∙◌, map, ltb,
  append-nil, if◌then◌else◌,
}
use django_ag_ui.Injectors.{
  Invalidation, Compaction, Shown, own, invalidation, compaction, Act, publishes, requests, emits,
  Sink, resource_invalidation, publish_invalidation, before_model_request, removed, to_event,
  on_invalidation_sink, on_compaction_sink, inject_compaction_events, inject_invalidation_events,
  injected,
}
use django_ag_ui.Injectors.Loop.{
  every, of_shown-raised, of_shown, notes, inject-split, of_shown-inject, of_shown-notes,
  notes-inject,
}

map_self : {X : Type 0} (l : List X) → map (λ x. x) l ≡ l
map_self [] = refl
map_self (x ∷ l) = ap (λ m. x ∷ m) (map_self l)

abbrev counted : Compaction → ℕ × ℕ × ℕ
counted c = (c.before - c.after, c.before, c.after)

module _ {E : Type 0} where
  abbrev pub owns : Shown E → List E
  owns (own e) = e ∷ []
  owns (invalidation i) = []
  owns (compaction r b a) = []

  abbrev pub invalidations : Shown E → List Invalidation
  invalidations (own e) = []
  invalidations (invalidation i) = i ∷ []
  invalidations (compaction r b a) = []

  -- A compaction as it is shown: how many were removed, and the numbers before and after.
  abbrev pub compactions : Shown E → List (ℕ × ℕ × ℕ)
  compactions (own e) = []
  compactions (invalidation i) = []
  compactions (compaction r b a) = (r, b, a) ∷ []

  -- What an act invalidates, and the messages that it removes.
  abbrev invalidated : Act E → List Invalidation
  invalidated (publishes keys reason) = record { keys = keys; reason = reason } ∷ []
  invalidated (requests before after) = []
  invalidated (emits e) = []

  abbrev compacted : Act E → List Compaction
  compacted (publishes keys reason) = []
  compacted (requests before after) =
      if ltb after before then record { before = before; after = after } ∷ [] else []
  compacted (emits e) = []

  -- The events that upstream produces are the run's own.
  abbrev OwnOnly : List (Act E) → Type 0
  OwnOnly acts = (of_shown invalidations acts ≡ []) × (of_shown compactions acts ≡ [])

  compaction_noted :
      (a : Act E) (s : List Compaction) → on_compaction_sink a (some s) ≡ some (s ++ compacted a)
  unfolding on_compaction_sink before_model_request
  compaction_noted (publishes k r) s = ap some (sym (append-nil s))
  compaction_noted (emits e) s = ap some (sym (append-nil s))
  compaction_noted (requests b a) s = shrinks (ltb a b)
    where
      shrinks :
          (c : Bool)
          → ◌≡◌ {A = Sink Compaction}
              (if c then some (s ++ record { before = b; after = a } ∷ []) else some s)
              (some (s ++ (if c then record { before = b; after = a } ∷ [] else [])))
      shrinks true = refl
      shrinks false = ap some (sym (append-nil s))

  invalidation_noted :
      (a : Act E) (s : List Invalidation)
      → on_invalidation_sink a (some s) ≡ some (s ++ invalidated a)
  unfolding on_invalidation_sink publish_invalidation resource_invalidation
  invalidation_noted (publishes k r) s = refl
  invalidation_noted (requests b a) s = ap some (sym (append-nil s))
  invalidation_noted (emits e) s = ap some (sym (append-nil s))

  injected_own : (acts : List (Act E)) → of_shown owns (injected false acts) ≡ of_shown owns acts
  unfolding injected inject_compaction_events inject_invalidation_events to_event
  injected_own acts =
      of_shown-inject invalidation on_invalidation_sink invalidated invalidation_noted owns
        (λ n. refl) [] (inject_compaction_events false acts)
      ∙ of_shown-inject to_event on_compaction_sink compacted compaction_noted owns (λ n. refl) []
          acts

  injected-compactions :
      (acts : List (Act E))
      → of_shown compactions acts ≡ []
      → of_shown compactions (injected false acts) ≡ map counted (notes compacted acts)
  unfolding injected inject_compaction_events inject_invalidation_events to_event removed
  injected-compactions acts h =
      of_shown-inject invalidation on_invalidation_sink invalidated invalidation_noted compactions
        (λ n. refl) [] (inject_compaction_events false acts)
      ∙ of_shown-notes to_event on_compaction_sink compacted compaction_noted compactions counted
          (λ n. refl) (λ e. refl) [] acts h

  injected-invalidations :
      (acts : List (Act E))
      → of_shown invalidations acts ≡ []
      → of_shown invalidations (injected false acts) ≡ notes invalidated acts
  unfolding injected inject_compaction_events inject_invalidation_events to_event
  injected-invalidations acts h =
      of_shown-notes invalidation on_invalidation_sink invalidated invalidation_noted invalidations
        (λ i. i) (λ n. refl) (λ e. refl) [] (inject_compaction_events false acts)
        (of_shown-inject to_event on_compaction_sink compacted compaction_noted invalidations
            (λ n. refl) [] acts
          ∙ h)
      ∙ map_self (notes invalidated (inject_compaction_events false acts))
      ∙ notes-inject to_event on_compaction_sink compacted compaction_noted invalidated (λ e. refl)
          [] acts

  injected_split :
      (fails : Bool) (xs : List (Act E)) (e : Shown E) (ys : List (Act E))
      → injected fails (xs ++ emits e ∷ ys) ≡ injected false xs ++ emits e ∷ injected fails ys
  unfolding injected inject_compaction_events inject_invalidation_events
  injected_split fails xs e ys =
      ap (inject_invalidation_events fails)
        (inject-split to_event on_compaction_sink compacted compaction_noted fails [] xs e ys)
      ∙ inject-split invalidation on_invalidation_sink invalidated invalidation_noted fails []
          (inject_compaction_events false xs) e (inject_compaction_events fails ys)

  injected_raised :
      (acts : List (Act E)) → of_shown every acts ≡ [] → of_shown every (injected true acts) ≡ []
  unfolding injected inject_compaction_events inject_invalidation_events
  injected_raised acts h =
      of_shown-raised invalidation on_invalidation_sink invalidated invalidation_noted []
        (inject_compaction_events true acts)
        (of_shown-raised to_event on_compaction_sink compacted compaction_noted [] acts h)

  -- Whether or not upstream raises in the end, the stream of a run is, around each of its events,
  -- what the client is sent before the event, the event, and the stream of what the run does after
  -- it. Before the event the client has been sent all that a run which ends there without raising is
  -- sent: the run's events up to it, in order, an invalidation for each that was published and each
  -- compaction that removed messages, with their number. Of what a run that raises puts on the sinks
  -- after its last event nothing is sent.
  pub injected_timely :
      (fails : Bool) (xs : List (Act E)) (e : E) (ys last : List (Act E))
      → OwnOnly xs
      → of_shown every last ≡ []
      → (injected fails (xs ++ emits (own e) ∷ ys)
          ≡ injected false xs ++ emits (own e) ∷ injected fails ys)
        × (of_shown owns (injected false xs) ≡ of_shown owns xs)
        × (of_shown invalidations (injected false xs) ≡ notes invalidated xs)
        × (of_shown compactions (injected false xs) ≡ map counted (notes compacted xs))
        × (of_shown every (injected true last) ≡ [])
  injected_timely fails xs e ys last h q = (
    injected_split fails xs (own e) ys,
    injected_own xs,
    injected-invalidations xs h.0,
    injected-compactions xs h.1,
    injected_raised last q,
  )
