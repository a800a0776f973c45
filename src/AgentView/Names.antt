-- ===== src/AgentView/Names.antt =====
-- Lists of names, with some left out (django_ag_ui/agent/agui_view.py).
use django_ag_ui.Base.{
  String, List, Bool, true, false, [], ◌∷◌, ◌++◌, ◌==◌, ◌≡◌, ◌||◌, ◌&&◌, not, contains,
  if◌then◌else◌, refl, arith, eq_iff, eq_refl, ap, Bool-cases, inl, inr, subst, or_false,
}
use django_ag_ui.Relabel.{Distinct}
use django_ag_ui.AgentView.ToolNames.{but_for}

pub contains-append :
    (xs ys : List String) (k : String) → contains (xs ++ ys) k ≡ (contains xs k || contains ys k)
contains-append [] ys k = refl
contains-append (x ∷ xs) ys k = ground (arith, contains-append xs ys k)

kept_or_not :
    (b c s : Bool) (n : String) (rest : List String) (k : String)
    → contains rest k ≡ (c && not s)
    → ((n == k) ≡ true → b ≡ s)
    → contains (if not b then n ∷ rest else rest) k ≡ ((n == k || c) && not s)
kept_or_not true c s n rest k h e = ground (arith, h, e)
kept_or_not false c s n rest k h e = ground (arith, h, e)

pub contains-but_for :
    (seen names : List String) (k : String)
    → contains (but_for seen names) k ≡ (contains names k && not (contains seen k))
contains-but_for seen [] k = refl
contains-but_for seen (n ∷ names) k =
    kept_or_not (contains seen n) (contains names k) (contains seen k) n (but_for seen names) k
      (contains-but_for seen names k) (λ e. ap (contains seen) ((eq_iff n k).0 e))

kept_once :
    (b c s : Bool) (n : String) (rest : List String)
    → contains rest n ≡ (c && not s)
    → c ≡ false
    → Distinct rest
    → Distinct (if not b then n ∷ rest else rest)
kept_once true c s n rest h e d = d
kept_once false c s n rest h e d = (ground (arith, h, e), d)

pub but_for-Distinct : (seen names : List String) → Distinct names → Distinct (but_for seen names)
but_for-Distinct seen [] d = tt
but_for-Distinct seen (n ∷ names) d =
    kept_once (contains seen n) (contains names n) (contains seen n) n (but_for seen names)
      (contains-but_for seen names n) d.0 (but_for-Distinct seen names d.1)

pub Distinct-append :
    (xs ys : List String)
    → Distinct xs
    → Distinct ys
    → ((k : String) → contains xs k ≡ true → contains ys k ≡ false)
    → Distinct (xs ++ ys)
Distinct-append [] ys d e h = e
Distinct-append (x ∷ xs) ys d e h = (
  rw contains-append (ground (arith, d.0, h x, eq_refl x)),
  Distinct-append xs ys d.1 e (λ k c. h k (ground (arith, c))),
)

pub Distinct-left : (xs ys : List String) → Distinct (xs ++ ys) → Distinct xs
Distinct-left [] ys d = tt
Distinct-left (x ∷ xs) ys d =
    let e : (contains xs x || contains ys x) ≡ false = rw contains-append at d.0 in
    (ground (arith, e), Distinct-left xs ys d.1)

pub Distinct-right : (xs ys : List String) → Distinct (xs ++ ys) → Distinct ys
Distinct-right [] ys d = d
Distinct-right (x ∷ xs) ys d = Distinct-right xs ys d.1

pub Distinct-apart :
    (xs ys : List String) (k : String)
    → Distinct (xs ++ ys)
    → contains xs k ≡ true
    → contains ys k ≡ false
Distinct-apart [] ys k d h = cc h
Distinct-apart (x ∷ xs) ys k d h =
    let e : (contains xs x || contains ys x) ≡ false = rw contains-append at d.0 in
    elim (Bool-cases (x == k)) [
      | inl q ↦ subst (λ z. contains ys z ≡ false) ((eq_iff x k).0 q) (or_false _ _ e).1
      | inr q ↦ let g : contains xs k ≡ true = rw q at h in Distinct-apart xs ys k d.1 g
    ]
