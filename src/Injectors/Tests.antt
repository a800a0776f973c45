-- ===== src/Injectors/Tests.antt =====
-- A run that publishes an invalidation and compacts its messages before an event
-- (django_ag_ui/agent/inject_compaction_events.py).
use django_ag_ui.Base.{ℕ, List, true, false, none, [], ◌∷◌, ◌++◌, ◌≡◌, refl, codes}
use django_ag_ui.Injectors.{Act, own, publishes, requests, emits, injected}
use django_ag_ui.Injectors.Loop.{every, of_shown}
use django_ag_ui.Injectors.Timely.{owns, invalidations, compactions, injected_timely}

abbrev acts : List (Act ℕ)
acts = emits (own 1) ∷ publishes (codes "books" ∷ []) none ∷ requests 9 4 ∷ requests 4 4 ∷ []

abbrev last : List (Act ℕ)
last = publishes (codes "books" ∷ []) none ∷ []

injected_timely_example :
    (injected true (acts ++ emits (own 2) ∷ [])
      ≡ injected false acts ++ emits (own 2) ∷ injected true [])
    × (of_shown owns (injected false acts) ≡ 1 ∷ [])
    × (of_shown invalidations (injected false acts)
        ≡ record { keys = codes "books" ∷ []; reason = none } ∷ [])
    × (of_shown compactions (injected false acts) ≡ (5, 9, 4) ∷ [])
    × (of_shown every (injected true last) ≡ [])
injected_timely_example = injected_timely true acts 2 [] last (refl, refl) refl
