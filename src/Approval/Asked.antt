-- ===== src/Approval/Asked.antt =====
-- Which question an interrupt ends up with (django_ag_ui/agent/stamp_approval_prompts.py).
use django_ag_ui.Base.{
  String, List, Option, Bool, true, false, none, some, [], ◌∷◌, ◌++◌, ◌==◌, ◌≡◌, refl, sym, ap, ◌∙◌,
  subst, or_else, map, eq_refl, All, if◌then◌else◌,
}
use django_ag_ui.Base.Dict.{Dict, lookup, insert, remove, lookup-insert, lookup-remove}
use django_ag_ui.Wire.{Value, str, Fields}
use django_ag_ui.Relabel.{Distinct}
use django_ag_ui.Server.Specs.{Binding, keys}
use django_ag_ui.Server.Prompts.{
  with_registry_prompts, or_first, or_first-none, last_asked, with_registry_prompts_lem,
}
use django_ag_ui.Approval.Learned.{last_started, learned, learned_lem}
use django_ag_ui.Approval.{
  Interrupt, Event, call_start, run_finished, other_event, fields_of, is_true, with_question,
  for_call, unless_asked, with_prompt, stamp, stamp_approval_prompts,
}

abbrev Unfinished : Event → Type 0
Unfinished (run_finished interrupts) = ⊥
Unfinished e = Unit

abbrev pub Pairs : (Interrupt → Interrupt → Type 0) → List Interrupt → List Interrupt → Type 0
Pairs P [] [] = Unit
Pairs P (i ∷ is) (j ∷ js) = P i j × Pairs P is js
Pairs P _ _ = ⊥

Pairs-map :
    (P : Interrupt → Interrupt → Type 0) (f : Interrupt → Interrupt) (is : List Interrupt)
    → ((i : Interrupt) → P i (f i))
    → Pairs P is (map f is)
Pairs-map P f [] h = tt
Pairs-map P f (i ∷ is) h = (h i, Pairs-map P f is h)

-- What the interrupt's own key holds afterwards: what it held, if that is true, or else the
-- question, if there is one that is not empty.
abbrev expected : Bool → Option Value → Option String → Option Value
expected true held question = held
expected false held none = held
expected false held (some question) = if question == "" then held else some (str question)

module _ (x : String) (other_is_true : String → Bool) where
  abbrev pub held : Interrupt → Option Value
  unfolding lookup
  held i = lookup x (fields_of i.metadata)

  -- An interrupt, and the same one with a value under the key and nothing else changed.
  abbrev Facts : Option Value → Interrupt → Interrupt → Type 0
  Facts value i j =
      (j.id ≡ i.id)
      × (j.tool_call_id ≡ i.tool_call_id)
      × (held j ≡ value)
      × ((k : String)
          → lookup k (remove x (fields_of j.metadata)) ≡ lookup k (remove x (fields_of i.metadata)))

  inserted_key : (value : Value) (m : Fields) → lookup x (insert x value m) ≡ some value
  inserted_key value m =
      lookup-insert x x value m ∙ ap (λ b. if b then some value else lookup x m) (eq_refl x)

  both_if :
      (b : Bool) (value : Value) (o : Option Value)
      → (if b then none else (if b then some value else o)) ≡ (if b then none else o)
  both_if true value o = refl
  both_if false value o = refl

  inserted_others :
      (value : Value) (m : Fields) (k : String)
      → lookup k (remove x (insert x value m)) ≡ lookup k (remove x m)
  inserted_others value m k =
      lookup-remove x k (insert x value m)
      ∙ ap (λ o. if x == k then none else o) (lookup-insert x k value m)
      ∙ both_if (x == k) value (lookup k m)
      ∙ sym (lookup-remove x k m)

  put_Facts :
      (b : Bool) (question : String) (i : Interrupt)
      → Facts (if b then held i else some (str question)) i (
          if b
          then i
          else record i { metadata = some (insert x (str question) (fields_of i.metadata)) })
  unfolding held
  put_Facts true question i = (refl, refl, refl, λ k. refl)
  put_Facts false question i = (
    refl,
    refl,
    inserted_key (str question) (fields_of i.metadata),
    λ k. inserted_others (str question) (fields_of i.metadata) k,
  )

  module _ (prompts : Dict String) (names : Dict String) where
    with_Facts :
        (i : Interrupt) (q : Option String)
        → Facts (expected false (held i) q) i (with_question x other_is_true prompts i q)
    unfolding with_question held
    with_Facts i none = (refl, refl, refl, λ k. refl)
    with_Facts i (some question) = put_Facts (question == "") question i

    abbrev asked_of : Option String → Option String
    unfolding lookup
    asked_of none = none
    asked_of (some call) = lookup (or_else (lookup call names) "") prompts

    call_Facts :
        (i : Interrupt) (o : Option String)
        → Facts
            (expected false (held i) (asked_of o))
            i
            (for_call x other_is_true prompts names i o)
    unfolding for_call asked_of
    call_Facts i none = (refl, refl, refl, λ k. refl)
    call_Facts i (some call) = with_Facts i (lookup (or_else (lookup call names) "") prompts)

    unless_Facts :
        (b : Bool) (i : Interrupt)
        → Facts
            (expected b (held i) (asked_of i.tool_call_id))
            i
            (unless_asked x other_is_true prompts b names i)
    unfolding unless_asked
    unless_Facts true i = (refl, refl, refl, λ k. refl)
    unless_Facts false i = call_Facts i i.tool_call_id

    prompt_Facts :
        (i : Interrupt)
        → Facts
            (expected (is_true x other_is_true (held i)) (held i) (asked_of i.tool_call_id))
            i
            (with_prompt x other_is_true prompts names i)
    unfolding with_prompt held
    prompt_Facts i = unless_Facts (is_true x other_is_true (held i)) i

    stamp_lem :
        (before : List Event) (is : List Interrupt) (known : Dict String)
        → All Unfinished before
        → stamp x other_is_true prompts known (before ++ run_finished (some is) ∷ [])
          ≡ before
            ++ run_finished
                (some (map (with_prompt x other_is_true prompts (learned known before)) is))
              ∷ []
    unfolding stamp learned
    stamp_lem [] is known h = refl
    stamp_lem (call_start call name ∷ es) is known h =
        ap (λ l. call_start call name ∷ l) (stamp_lem es is (insert call name known) h.1)
    stamp_lem (run_finished o ∷ es) is known h = absurd h.0
    stamp_lem (other_event type ∷ es) is known h =
        ap (λ l. other_event type ∷ l) (stamp_lem es is known h.1)

  module _ (config : Dict String) (registry : List Binding) (before : List Event) where
    -- The question for a call: the configured prompt of the tool that the events last started under
    -- that id, or else the question that the registry's tool of that name has.
    abbrev pub question : Option String → Option String
    unfolding lookup
    question none = none
    question (some call) =
        let tool = or_else (last_started call before) "" in
        or_first (lookup tool config) (last_asked tool registry)

    -- An interrupt, and the same one with the question under the key and nothing else changed.
    abbrev pub Asked : Interrupt → Interrupt → Type 0
    Asked i j =
        Facts (expected (is_true x other_is_true (held i)) (held i) (question i.tool_call_id)) i j

    question_lem :
        (o : Option String)
        → Distinct (keys config)
        → asked_of (with_registry_prompts config registry) (learned [] before) o ≡ question o
    unfolding asked_of question
    question_lem none d = refl
    question_lem (some call) d =
        ap (λ n. lookup (or_else n "") (with_registry_prompts config registry))
          (learned_lem call [] before ∙ or_first-none (last_started call before))
        ∙ with_registry_prompts_lem config registry (or_else (last_started call before) "") d

    -- With the prompts that a server merges, the interrupts at the end of a run's events come out
    -- one by one with the question of the tool that they wait for: the configured prompt, or else
    -- the registry's. A true value that stands under the key already, and every other key, is kept;
    -- and the events before the end pass unchanged.
    pub stamp_approval_prompts-Asked :
        (is : List Interrupt)
        → Distinct (keys config)
        → All Unfinished before
        → (js : List Interrupt) × (stamp_approval_prompts x other_is_true
              (with_registry_prompts config registry)
              (before ++ run_finished (some is) ∷ [])
            ≡ before ++ run_finished (some js) ∷ [])
          × Pairs Asked is js
    unfolding stamp_approval_prompts
    stamp_approval_prompts-Asked is d h =
        let prompts = with_registry_prompts config registry in
        let names = learned [] before in
        (
          map (with_prompt x other_is_true prompts names) is,
          stamp_lem prompts names before is [] h,
          Pairs-map Asked (with_prompt x other_is_true prompts names) is (λ i.
              subst
                (λ q.
                  Facts (expected (is_true x other_is_true (held i)) (held i) q) i
                    (with_prompt x other_is_true prompts names i))
                (question_lem i.tool_call_id d) (prompt_Facts prompts names i)),
        )
