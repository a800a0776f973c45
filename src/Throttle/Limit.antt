-- ===== src/Throttle/Limit.antt =====
-- What `FixedWindowThrottle.consume` (django_ag_ui/agent/fixed_window_throttle.py) lets through in one
-- window, and what it tells a refused client.
use native.Mathlib.Nat.{div-add-mod, mod-lt, mul-div_cancel}
use django_ag_ui.Base.{
  ℕ, zero, suc, ◌+◌, ◌-◌, ◌*◌, ◌/◌, ◌%◌, ◌≤◌, ◌<◌, min, Text, Option, Bool, true, false, none, some,
  List, [], ◌∷◌, ◌≡◌, ◌∙◌, ap, arith, ltb, length, if◌then◌else◌, All,
}
use django_ag_ui.Throttle.{
  Throttle, cache_key, increment_after, increment, retry_after, verdict, consume_after, consume,
}
use django_ag_ui.Throttle.Backend.{Cache}

wait_lem : (window now : ℕ) → 0 < window → retry_after window now ≡ window - now % window
unfolding retry_after
wait_lem window now h = grind (arith, div-add-mod now window, mod-lt now h)

-- A refused client is told to wait from 1 second to one window, and exactly until the next window.
retry_after_bounds :
    (window now : ℕ)
    → 0 < window
    → (1 ≤ retry_after window now)
      × (retry_after window now ≤ window)
      × ((now + retry_after window now) / window ≡ now / window + 1)
unfolding retry_after
retry_after_bounds window now h =
    let wait : retry_after window now ≡ window - now % window = wait_lem window now h in
    let next : now + (window - now % window) ≡ (now / window + 1) * window =
      grind (arith, div-add-mod now window, mod-lt now h) in
    rw wait
      (omega (arith, mod-lt now h), omega arith, ap (λ n. n / window) next ∙ mul-div_cancel _ h)

module _ (c : Cache) {Request : Type 0} (t : Throttle Request) where
  open c use {Store, get}

  -- The counter of a key stands at `n`; a counter at 0 is absent.
  abbrev Counted : Text → Store → ℕ → Type 0
  Counted key s zero = get key s ≡ none
  Counted key s (suc n) = get key s ≡ some (suc n)

  abbrev pub answer : ℕ → ℕ → Option ℕ
  answer now n = if ltb n t.max_runs then none else some (retry_after t.window now)

  abbrev Counts : ℕ → ℕ → Text → Option ℕ × Store → Type 0
  Counts now n key r = (r.0 ≡ answer now n) × (get key r.1 ≡ some (suc n))

  first_Counts :
      (now : ℕ) (key : Text) (r : Bool × Store)
      → 0 < t.max_runs
      → (r.0 ≡ true) × (get key r.1 ≡ some 1)
      → Counts now 0 key (consume_after c t now key r)
  unfolding consume_after
  first_Counts now key (true, s) pos h = (ground arith, h.1)
  first_Counts now key (false, s) pos h = cc (h.0)

  again_Counts :
      (now n : ℕ) (key : Text) (r : Option ℕ × Store)
      → (r.0 ≡ some (suc n + 1)) × (get key r.1 ≡ some (suc n + 1))
      → Counts now (suc n) key (verdict c t now (increment_after c key t.window r))
  unfolding verdict increment_after
  again_Counts now n key (none, s) h = cc (h.0)
  again_Counts now n key (some m, s) h = (ground (arith, h.0), h.1 ∙ ap some (omega arith))

  -- One call against a counter at `n` lets the run start exactly if `n` is below the limit, and
  -- leaves the counter at `n + 1`.
  consume_Counts :
      (now n : ℕ) (key : Text) (s : Store)
      → 0 < t.max_runs
      → Counted key s n
      → Counts now n key (consume_after c t now key (c.add key 1 t.window s))
  consume_Counts now zero key s pos h = first_Counts now key _ pos (c.add_absent key 1 t.window s h)
  consume_Counts now (suc n) key s pos h =
      rw (c.add_present key 1 t.window (suc n) s h) (
        unfold consume_after increment in again_Counts now n key _ (c.incr_present key (suc n) s h))

  abbrev counted_in : Option ℕ → ℕ → ℕ
  counted_in none n = suc n
  counted_in (some wait) n = n

  -- How many of a run of calls are let through.
  pub let_through : List (ℕ × Request) → Store → ℕ
  let_through [] s = 0
  let_through ((now, request) ∷ calls) s =
      let r = consume c t now request s in counted_in r.0 (let_through calls r.1)

  abbrev InWindow : Text → ℕ × Request → Type 0
  InWindow key (now, request) = cache_key t.namespace (t.key request) (now / t.window) ≡ key

  consume_key :
      (key : Text) (now : ℕ) (request : Request) (s : Store)
      → InWindow key (now, request)
      → consume c t now request s ≡ consume_after c t now key (c.add key 1 t.window s)
  unfolding consume
  consume_key key now request s same = ap (λ k. consume_after c t now k (c.add k 1 t.window s)) same

  let_through_from :
      (key : Text) (calls : List (ℕ × Request)) (n : ℕ) (s : Store)
      → 0 < t.max_runs
      → All (InWindow key) calls
      → Counted key s n
      → let_through calls s ≡ min (length calls) (t.max_runs - n)
  unfolding let_through
  let_through_from key [] n s pos same h = omega arith
  let_through_from key ((now, request) ∷ calls) n s pos same h =
      let r = consume_after c t now key (c.add key 1 t.window s) in
      let step = consume_Counts now n key s pos h in
      let rest = let_through_from key calls (suc n) r.1 pos same.1 step.1 in
      rw (consume_key key now request s same.0) (rw step.0 (rw rest (ground arith)))

  -- However many calls one key makes in one window, and whatever their times in it, exactly the
  -- first `max_runs` of them are let through, provided the backend loses no counter.
  pub let_through_limit :
      (key : Text) (calls : List (ℕ × Request)) (s : Store)
      → 0 < t.max_runs
      → All (InWindow key) calls
      → get key s ≡ none
      → let_through calls s ≡ min (length calls) t.max_runs
  let_through_limit key calls s pos same h = let_through_from key calls 0 s pos same h ∙ omega arith
