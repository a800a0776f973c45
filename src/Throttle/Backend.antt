-- ===== src/Throttle/Backend.antt =====
-- `django.core.cache` as django_ag_ui/agent/fixed_window_throttle.py uses it: `add` and `incr`, with
-- what Django documents of them. The store's content is whatever the backend keeps.
use django_ag_ui.Base.{ℕ, ◌+◌, Text, Option, Bool, true, false, none, some, ◌≡◌}

pub record Cache : Type 1 where
  pub Store : Type 0
  pub get : Text → Store → Option ℕ
  pub add : Text → ℕ → ℕ → Store → Bool × Store
  pub incr : Text → Store → Option ℕ × Store
  -- `add` sets an absent key and says so; a present key it leaves alone.
  pub add_absent :
      (k : Text) (v timeout : ℕ) (s : Store)
      → get k s ≡ none
      → ((add k v timeout s).0 ≡ true) × (get k (add k v timeout s).1 ≡ some v)
  pub add_present :
      (k : Text) (v timeout n : ℕ) (s : Store) → get k s ≡ some n → add k v timeout s ≡ (false, s)
  -- `incr` adds one to a present key and returns the sum.
  pub incr_present :
      (k : Text) (n : ℕ) (s : Store)
      → get k s ≡ some n
      → ((incr k s).0 ≡ some (n + 1)) × (get k (incr k s).1 ≡ some (n + 1))
