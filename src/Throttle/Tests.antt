-- ===== src/Throttle/Tests.antt =====
-- A backend that keeps every counter, and one client's calls within a minute
-- (django_ag_ui/agent/fixed_window_throttle.py).
use django_ag_ui.Base.{
  ℕ, ◌+◌, Text, Option, Bool, true, false, none, some, List, [], ◌∷◌, ◌≡◌, refl, codes, min, length,
  text_eq, text_eq_refl, if◌then◌else◌, arith,
}
use django_ag_ui.Throttle.{Throttle, default_key, cache_key, retry_after, consume}
use django_ag_ui.Throttle.Backend.{Cache}
use django_ag_ui.Throttle.Limit.{let_through, let_through_limit}

abbrev Counters : Type 0
Counters = Text → Option ℕ

abbrev put : Text → ℕ → Counters → Counters
put k v s j = if text_eq k j then some v else s j

abbrev add_in : Text → ℕ → Counters → Option ℕ → Bool × Counters
add_in k v s none = (true, put k v s)
add_in k v s (some n) = (false, s)

abbrev incr_in : Text → Counters → Option ℕ → Option ℕ × Counters
incr_in k s none = (none, s)
incr_in k s (some n) = (some (n + 1), put k (n + 1) s)

put-get : (k : Text) (v : ℕ) (s : Counters) → put k v s k ≡ some v
put-get k v s = rw text_eq_refl

add_in_absent :
    (k : Text) (v : ℕ) (s : Counters) (o : Option ℕ)
    → o ≡ none
    → ((add_in k v s o).0 ≡ true) × ((add_in k v s o).1 k ≡ some v)
add_in_absent k v s none h = (refl, put-get k v s)
add_in_absent k v s (some n) h = cc

add_in_present :
    (k : Text) (v n : ℕ) (s : Counters) (o : Option ℕ) → o ≡ some n → add_in k v s o ≡ (false, s)
add_in_present k v n s none h = cc
add_in_present k v n s (some m) h = refl

incr_in_present :
    (k : Text) (n : ℕ) (s : Counters) (o : Option ℕ)
    → o ≡ some n
    → ((incr_in k s o).0 ≡ some (n + 1)) × ((incr_in k s o).1 k ≡ some (n + 1))
incr_in_present k n s none h = cc
incr_in_present k n s (some m) h = let same : m ≡ n = cc h in rw same (refl, put-get k (n + 1) s)

abbrev kept : Cache
kept = record {
  Store = Counters;
  get = λ k s. s k;
  add = λ k v timeout s. add_in k v s (s k);
  incr = λ k s. incr_in k s (s k);
  add_absent = λ k v timeout s h. add_in_absent k v s (s k) h;
  add_present = λ k v timeout n s h. add_in_present k v n s (s k) h;
  incr_present = λ k n s h. incr_in_present k n s (s k) h;
}

abbrev two_a_minute : Throttle Text
two_a_minute = record {
  max_runs = 2;
  window = 60;
  namespace = codes "default";
  key = λ user. default_key (some user) none;
}

abbrev calls : List (ℕ × Text)
calls = (600, codes "7") ∷ (601, codes "7") ∷ (640, codes "7") ∷ []

refuses_the_third :
    consume kept two_a_minute 640
      (codes "7")
      (put (cache_key (codes "default") (codes "u:7") 10) 2 (λ k. none))
    ≡ (
      some 20,
      put
          (cache_key (codes "default") (codes "u:7") 10)
          3
          (put (cache_key (codes "default") (codes "u:7") 10) 2 (λ k. none)),
    )
unfolding consume default_key retry_after
refuses_the_third = refl

let_through_limit_example : let_through kept two_a_minute calls (λ k. none) ≡ min (length calls) 2
unfolding default_key
let_through_limit_example =
    let_through_limit kept two_a_minute
      (cache_key (codes "default") (default_key (some (codes "7")) none) 10) calls (λ k. none)
      (omega arith) (refl, (refl, (refl, tt))) refl
