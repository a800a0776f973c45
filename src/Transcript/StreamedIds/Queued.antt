-- ===== src/Transcript/StreamedIds/Queued.antt =====
-- What the queues that `with_streamed_ids` builds from django_ag_ui/agent/run_transcript.py hold,
-- and what taking from one leaves.
use django_ag_ui.Base.{
  String, List, Option, true, none, some, [], ◌∷◌, ◌++◌, ◌==◌, ◌≡◌, refl, sym, subst, ◌∙◌, ap, inl,
  inr, arith, eq_iff, append-nil, append_assoc, if◌then◌else◌, Bool-cases, In, All, and_left,
  and_right, All-weaken,
}
use django_ag_ui.Base.Dict.{Dict, lookup, update, or_nil, or_nil-push, lookup-insert}
use django_ag_ui.Wire.{Fields, ToolCall, Body, Message, tool, activity}
use django_ag_ui.Transcript.{Item, draft, result}
use django_ag_ui.Transcript.StreamedIds.{
  queue_result, group_activity, taken_from, results_of, parents_of, dumped_activities, take_queued,
  next_of, rest_of, taken_parents, shared_parent, all_are, same_parent, or_absent,
}

abbrev result_id : String → String → Body → List String
result_id k id (tool call content) = if call == k then id ∷ [] else []
result_id k id b = []

-- The ids of the results of one call, in stream order.
abbrev pub result_ids : String → List Item → List String
result_ids k [] = []
result_ids k (draft d ∷ is) = result_ids k is
result_ids k (result m ∷ is) = result_id k m.id m.body ++ result_ids k is

-- The parents the stream named for one call, in stream order.
abbrev pub parents_under : String → List (String × Option String) → List (Option String)
parents_under k [] = []
parents_under k ((call, parent) ∷ ps) =
    if call == k then parent ∷ parents_under k ps else parents_under k ps

abbrev content_of : String → Body → List Fields
content_of k (activity type content) = if type == k then content ∷ [] else []
content_of k b = []

-- The contents of the activities of one type, in the order dumped.
abbrev pub contents_of : String → List Message → List Fields
contents_of k [] = []
contents_of k (m ∷ ms) = content_of k m.body ++ contents_of k ms

push_then {ℓ} :
    {A : Type ℓ} (k j : String) (x : A) (d : Dict (List A)) (tail : List A)
    → or_nil (lookup j (update k [] (λ q. q ++ x ∷ []) d)) ++ tail
      ≡ or_nil (lookup j d) ++ ((if k == j then x ∷ [] else []) ++ tail)
push_then k j x d tail = elim (Bool-cases (k == j)) [
  | inl e ↦ rw (or_nil-push k j x d) (rw e (rw append_assoc))
  | inr e ↦ rw (or_nil-push k j x d) (rw e)
]

result_then :
    (k : String) (d : Dict (List String)) (id : String) (b : Body) (tail : List String)
    → or_nil (lookup k (queue_result d id b)) ++ tail
      ≡ or_nil (lookup k d) ++ (result_id k id b ++ tail)
result_then k d id (tool call content) tail = push_then call k id d tail
result_then k d id _ tail = refl

pub or_nil-results_of :
    (k : String) (d : Dict (List String)) (is : List Item)
    → or_nil (lookup k (results_of d is)) ≡ or_nil (lookup k d) ++ result_ids k is
unfolding results_of
or_nil-results_of k d [] = sym (append-nil _)
or_nil-results_of k d (draft e ∷ is) = or_nil-results_of k d is
or_nil-results_of k d (result m ∷ is) =
    or_nil-results_of k (queue_result d m.id m.body) is
    ∙ result_then k d m.id m.body (result_ids k is)

parent_then :
    (k call : String) (p : Option String) (ps : List (String × Option String))
    → (if call == k then p ∷ [] else []) ++ parents_under k ps ≡ parents_under k ((call, p) ∷ ps)
parent_then k call p ps = ground arith

pub or_nil-parents_of :
    (k : String) (d : Dict (List (Option String))) (ps : List (String × Option String))
    → or_nil (lookup k (parents_of d ps)) ≡ or_nil (lookup k d) ++ parents_under k ps
unfolding parents_of
or_nil-parents_of k d [] = sym (append-nil _)
or_nil-parents_of k d ((call, p) ∷ ps) =
    or_nil-parents_of k (update call [] (λ q. q ++ p ∷ []) d) ps
    ∙ push_then call k p d (parents_under k ps)
    ∙ ap (λ l. or_nil (lookup k d) ++ l) (parent_then k call p ps)

activity_then :
    (k : String) (d : Dict (List Fields)) (b : Body) (tail : List Fields)
    → or_nil (lookup k (group_activity d b)) ++ tail
      ≡ or_nil (lookup k d) ++ (content_of k b ++ tail)
activity_then k d (activity type content) tail = push_then type k content d tail
activity_then k d _ tail = refl

pub or_nil-dumped_activities :
    (k : String) (d : Dict (List Fields)) (ms : List Message)
    → or_nil (lookup k (dumped_activities d ms)) ≡ or_nil (lookup k d) ++ contents_of k ms
unfolding dumped_activities
or_nil-dumped_activities k d [] = sym (append-nil _)
or_nil-dumped_activities k d (m ∷ ms) =
    or_nil-dumped_activities k (group_activity d m.body) ms
    ∙ activity_then k d m.body (contents_of k ms)

module _ {A : Type 0} where
  taken_from_next :
      (queues : Dict (List A)) (k : String) (o : Option (List A))
      → (taken_from queues k o).0 ≡ next_of (or_nil o)
  taken_from_next queues k none = refl
  taken_from_next queues k (some []) = refl
  taken_from_next queues k (some (x ∷ q)) = refl

  pub take_queued-next_of :
      (queues : Dict (List A)) (k : String)
      → (take_queued queues k).0 ≡ next_of (or_nil (lookup k queues))
  unfolding take_queued
  take_queued-next_of queues k = taken_from_next queues k (lookup k queues)

  taken_from_rest :
      (queues : Dict (List A)) (k j : String) (o : Option (List A))
      → lookup k queues ≡ o
      → or_nil (lookup j (taken_from queues k o).1)
        ≡ (if k == j then rest_of (or_nil o) else or_nil (lookup j queues))
  taken_from_rest queues k j none e = ground (arith, eq_iff k j)
  taken_from_rest queues k j (some []) e = ground (arith, eq_iff k j)
  taken_from_rest queues k j (some (x ∷ q)) e = rw lookup-insert (ground arith)

  -- Taking from one queue leaves its rest, and every other queue as it was.
  pub take_queued-rest_of :
      (queues : Dict (List A)) (k j : String)
      → or_nil (lookup j (take_queued queues k).1)
        ≡ (if k == j then rest_of (or_nil (lookup k queues)) else or_nil (lookup j queues))
  unfolding take_queued
  take_queued-rest_of queues k j = taken_from_rest queues k j (lookup k queues) refl

  In-rest_of : (a : A) (l : List A) → In a (rest_of l) → In a l
  In-rest_of a [] h = h
  In-rest_of a (x ∷ l) h = inr h

  pub In-next_of : (a : A) (l : List A) → next_of l ≡ some a → In a l
  In-next_of a [] e = cc
  In-next_of a (x ∷ l) e = inl (cc)

  pub In-take_queued :
      (queues : Dict (List A)) (k j : String) (a : A)
      → In a (or_nil (lookup j (take_queued queues k).1))
      → In a (or_nil (lookup j queues))
  In-take_queued queues k j a h = elim (Bool-cases (k == j)) [
    | inl e ↦
        let here : In a (rest_of (or_nil (lookup k queues))) =
          rw (take_queued-rest_of queues k j, e) at h in
        subst (λ i. In a (or_nil (lookup i queues))) ((eq_iff k j).0 e) (In-rest_of a _ here)
    | inr e ↦ rw (take_queued-rest_of queues k j, e) at h
  ]

same_parent_eq : (p q : Option String) → same_parent p q ≡ true → q ≡ p
same_parent_eq none none e = refl
same_parent_eq none (some b) e = cc
same_parent_eq (some a) none e = cc
same_parent_eq (some a) (some b) e = ap some (sym ((eq_iff a b).0 e))

all_are-All :
    (p : Option String) (l : List (Option String)) → all_are p l ≡ true → All (λ q. q ≡ p) l
all_are-All p [] e = tt
all_are-All p (q ∷ l) e = (same_parent_eq p q (and_left _ _ e), all_are-All p l (and_right _ _ e))

-- A shared parent is the parent of every value in the set.
shared_parent-All :
    (l : List (Option String)) (x : String) → shared_parent l ≡ some x → All (λ q. q ≡ some x) l
unfolding shared_parent
shared_parent-All [] x e = cc
shared_parent-All (p ∷ l) x e = elim (Bool-cases (all_are p l)) [
  | inl h ↦
      let here : p ≡ some x = rw h at e in
      (here, subst (λ p'. All (λ q. q ≡ p') l) here (all_are-All p l h))
  | inr h ↦ let gone : none ≡ some x = rw h at e in cc gone
]

or_absent_eq : (o : Option (Option String)) (x : String) → or_absent o ≡ some x → o ≡ some (some x)
or_absent_eq none x e = cc
or_absent_eq (some p) x e = ap some e

pub In-taken_parents :
    (queues : Dict (List (Option String))) (cs : List ToolCall) (j : String) (p : Option String)
    → In p (or_nil (lookup j (taken_parents queues cs).1))
    → In p (or_nil (lookup j queues))
unfolding taken_parents
In-taken_parents queues [] j p h = h
In-taken_parents queues (c ∷ cs) j p h =
    In-take_queued queues c.id j p (In-taken_parents (take_queued queues c.id).1 cs j p h)

taken_parents-In :
    (queues : Dict (List (Option String))) (cs : List ToolCall) (x : String)
    → All (λ q. q ≡ some x) (taken_parents queues cs).0
    → All (λ c. In (some x) (or_nil (lookup c.id queues))) cs
unfolding taken_parents
taken_parents-In queues [] x h = tt
taken_parents-In queues (c ∷ cs) x h = (
  In-next_of (some x) _
      (sym (take_queued-next_of queues c.id) ∙ or_absent_eq (take_queued queues c.id).0 x h.0),
  All-weaken cs (λ d. In-take_queued queues c.id d.id (some x))
      (taken_parents-In (take_queued queues c.id).1 cs x h.1),
)

-- The parent that all the calls share was queued under each of them.
pub shared_parent-taken_parents :
    (queues : Dict (List (Option String))) (cs : List ToolCall) (x : String)
    → shared_parent (taken_parents queues cs).0 ≡ some x
    → All (λ c. In (some x) (or_nil (lookup c.id queues))) cs
shared_parent-taken_parents queues cs x e = taken_parents-In queues cs x (shared_parent-All _ x e)
