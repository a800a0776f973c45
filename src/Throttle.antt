-- ===== src/Throttle.antt =====
-- django_ag_ui/agent/fixed_window_throttle.py: a run limiter over a counter in Django's cache.
pub mod Backend
pub mod Limit
mod Tests
use django_ag_ui.Base.{
  ℕ, suc, ◌+◌, ◌-◌, ◌*◌, ◌/◌, max, String, Text, Option, Bool, true, false, none, some, List, [],
  ◌∷◌, ◌++◌, codes, decimal, leb, if◌then◌else◌,
}
use django_ag_ui.Base.Int.{ℤ, pos, negsuc, not_positive}
use django_ag_ui.Throttle.Backend.{Cache}

-- `FixedWindowThrottle`'s attributes; the request's bucket key is computed by `key`.
pub record Throttle (Request : Type 0) : Type 0 where
  pub max_runs : ℕ
  pub window : ℕ
  pub namespace : Text
  pub key : Request → Text

data Created (Request : Type 0) : Type 0 where
  created : Throttle Request → Created Request
  refused : String → Created Request

abbrev magnitude : ℤ → ℕ
magnitude (pos n) = n
magnitude (negsuc n) = suc n

-- `__init__`, with its `ValueError`s.
unfoldable create : {Request : Type 0} → ℤ → ℤ → Text → (Request → Text) → Created Request
create max_runs per_seconds namespace key =
    if not_positive max_runs
    then refused "max_runs must be positive"
    else if not_positive per_seconds
    then refused "per_seconds must be positive"
    else created (record {
      max_runs = magnitude max_runs;
      window = magnitude per_seconds;
      namespace = namespace;
      key = key;
    })

-- `_default_key` of the user's primary key, if authenticated, and the remote address.
unfoldable pub default_key : Option Text → Option Text → Text
default_key (some user) address = codes "u:" ++ user
default_key none (some address) = codes "ip:" ++ address
default_key none none = codes "ip:unknown"

-- The f-string of `cache_key`.
unfoldable pub cache_key : Text → Text → ℕ → Text
unfolding decimal
cache_key namespace key bucket =
    codes "django-ag-ui:throttle:"
    ++ (namespace ++ (codes ":" ++ (key ++ (codes ":" ++ decimal bucket))))

-- The end of the window, in seconds from now, and never 0.
unfoldable pub retry_after : ℕ → ℕ → ℕ
retry_after window now = max ((now / window + 1) * window - now) 1

module _ (c : Cache) where
  open c use {Store, add, incr}

  -- `_increment`: a lost counter is seeded again.
  pub increment_after : Text → ℕ → Option ℕ × Store → ℕ × Store
  increment_after key timeout (some n, s) = (n, s)
  increment_after key timeout (none, s) = (1, (add key 1 timeout s).1)

  unfoldable pub increment : Text → ℕ → Store → ℕ × Store
  unfolding increment_after
  increment key timeout s = increment_after key timeout (incr key s)

module _ (c : Cache) {Request : Type 0} where
  open c use {Store, add}

  pub verdict : Throttle Request → ℕ → ℕ × Store → Option ℕ × Store
  verdict t now (count, s) =
      (if leb count t.max_runs then none else some (retry_after t.window now), s)

  pub consume_after : Throttle Request → ℕ → Text → Bool × Store → Option ℕ × Store
  unfolding verdict increment
  consume_after t now key (true, s) = (none, s)
  consume_after t now key (false, s) = verdict t now (increment c key t.window s)

  -- `consume` at a time: `none` lets the run start, `some` is the `Retry-After`.
  unfoldable pub consume : Throttle Request → ℕ → Request → Store → Option ℕ × Store
  unfolding consume_after cache_key
  consume t now request s =
      let key = cache_key t.namespace (t.key request) (now / t.window) in
      consume_after t now key (add key 1 t.window s)
