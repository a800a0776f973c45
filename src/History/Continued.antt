-- ===== src/History/Continued.antt =====
-- What a resumed run continues from, and what is stored of the client's new turn
-- (django_ag_ui/agent/continued_history.py).
use django_ag_ui.Base.{
  String, List, Option, Bool, true, false, none, some, [], ◌∷◌, ◌++◌, ◌&&◌, ◌≡◌, refl, sym, ap, not,
  drop, any, keep_if, keep_if_again, All, All-keep_if, All-weaken, append-nil, not_true→false, ◌==◌,
  contains, if◌then◌else◌,
}
use django_ag_ui.Wire.{Message}
use django_ag_ui.History.{
  RequestPart, user_prompt, tool_return, retry_prompt, other_part, ModelMessage, request,
  is_tool_result, is_user_prompt, Adapter, answers, after_last_response, turn_id, names, Cut,
  cut_next, cut_at, results_request, kept_of, kept_for, answered, already, resubmitted_of,
  continued_history,
}

-- A part of a request that keeps only a cut turn's tool results is no prompt.
no_prompt : (ps : List RequestPart) → any is_user_prompt (keep_if is_tool_result ps) ≡ false
no_prompt [] = refl
no_prompt (user_prompt t ∷ ps) = no_prompt ps
no_prompt (tool_return c ∷ ps) = no_prompt ps
no_prompt (retry_prompt none c ∷ ps) = no_prompt ps
no_prompt (retry_prompt (some n) c ∷ ps) = no_prompt ps
no_prompt (other_part ∷ ps) = no_prompt ps

module _ {Response : Type 0} (a : Adapter Response) where
  abbrev Messages : Type 0
  Messages = List (ModelMessage Response)

  abbrev Unnamed : String → Messages → Type 0
  Unnamed turn ms = All (λ m. names a turn m ≡ false) ms

  Unnamed-append :
      (turn : String) (ms ns : Messages)
      → Unnamed turn ms
      → Unnamed turn ns
      → Unnamed turn (ms ++ ns)
  Unnamed-append turn [] ns h g = g
  Unnamed-append turn (m ∷ ms) ns h g = (h.0, Unnamed-append turn ms ns h.1 g)

  -- Only tool results, in at most one request.
  abbrev OnlyResults : Messages → Type 0
  OnlyResults [] = Unit
  OnlyResults (request ps ∷ []) = All (λ p. is_tool_result p ≡ true) ps
  OnlyResults ms = ⊥

  results_lem :
      (turn : String) (ps : List RequestPart)
      → any is_user_prompt ps ≡ false
      → All (λ p. is_tool_result p ≡ true) ps
      → Unnamed turn (results_request a ps) × OnlyResults (results_request a ps)
  unfolding names
  results_lem turn [] n h = (tt, tt)
  results_lem turn (p ∷ ps) n h = ((ap (λ b. b && a.last_dumped_id (p ∷ ps) == turn) n, tt), h)

  -- The history up to a cut, with what stands after it.
  abbrev CutOf : String → Messages → Cut a → Type 0
  CutOf turn ms none = Unnamed turn ms
  CutOf turn ms (some (before, ps)) =
      ((rest : Messages) × (before ++ rest ≡ ms)) × Unnamed turn before

  cut_next_lem :
      (turn : String) (m : ModelMessage Response) (ms : Messages) (b : Bool) (o : Cut a)
      → names a turn m ≡ b
      → CutOf turn ms o
      → CutOf turn (m ∷ ms) (cut_next a b m o)
  cut_next_lem turn m ms true o e h = ((m ∷ ms, refl), tt)
  cut_next_lem turn m ms false none e h = (e, h)
  cut_next_lem turn m ms false (some (before, ps)) e h = ((h.0.0, ap (λ l. m ∷ l) h.0.1), (e, h.1))

  cut_at_lem : (turn : String) (ms : Messages) → CutOf turn ms (cut_at a turn ms)
  unfolding cut_at
  cut_at_lem turn [] = tt
  cut_at_lem turn (m ∷ ms) =
      cut_next_lem turn m ms (names a turn m) (cut_at a turn ms) refl (cut_at_lem turn ms)

  -- A beginning of the history, and of the message after it the tool results at most.
  abbrev pub Continues : Messages → Messages → Type 0
  Continues history kept =
      (before : Messages) × (rest : Messages) × (results : Messages) × (before ++ rest ≡ history)
      × (kept ≡ before ++ results)
      × OnlyResults results

  abbrev pub UnnamedFor : Option String → Messages → Type 0
  UnnamedFor none ms = Unit
  UnnamedFor (some turn) ms = Unnamed turn ms

  kept_of_lem :
      (turn : String) (history : Messages) (o : Cut a)
      → CutOf turn history o
      → Continues history (kept_of a history o) × Unnamed turn (kept_of a history o)
  kept_of_lem turn history none h =
      ((history, [], [], append-nil history, sym (append-nil history), tt), h)
  kept_of_lem turn history (some (before, ps)) h =
      let results = results_request a (keep_if is_tool_result ps) in
      let r =
        results_lem turn (keep_if is_tool_result ps) (no_prompt ps)
          (All-keep_if is_tool_result ps) in
      ((before, h.0.0, results, h.0.1, refl, r.1), Unnamed-append turn before results h.1 r.0)

  kept_for_lem :
      (history : Messages) (turn : Option String)
      → Continues history (kept_for a history turn) × UnnamedFor turn (kept_for a history turn)
  unfolding kept_for
  kept_for_lem history none =
      ((history, [], [], append-nil history, sym (append-nil history), tt), tt)
  kept_for_lem history (some turn) =
      kept_of_lem turn history (cut_at a turn history) (cut_at_lem turn history)

  abbrev is_result : Option String → Bool
  is_result none = false
  is_result (some call) = true

  -- The messages of a turn that are no tool results.
  abbrev pub spoken : List Message → List Message
  spoken ms = keep_if (λ m. not (is_result (answers m.body))) ms

  unanswered :
      (calls : List String) (o : Option String)
      → not (is_result o) ≡ true
      → not (already a calls o) ≡ true
  unanswered calls none h = refl
  unanswered calls (some call) h = cc h

  -- The new turn of what the client posted, and the message id that names it.
  abbrev pub turn_of : List Message → List Message
  unfolding after_last_response
  turn_of posted = drop (after_last_response a posted) posted

  -- A turn without the tool results whose call is settled.
  abbrev open_next : Bool → Message → List Message → List Message
  open_next true m rest = rest
  open_next false m rest = m ∷ rest

  abbrev open_message : (String → Bool) → Message → Option String → List Message → List Message
  open_message settled m (some call) rest = open_next (settled call) m rest
  open_message settled m none rest = m ∷ rest

  abbrev pub open_of : (String → Bool) → List Message → List Message
  open_of settled [] = []
  open_of settled (m ∷ ms) = open_message settled m (answers m.body) (open_of settled ms)

  open_step :
      (calls : List String) (m : Message) (o : Option String) (ms rest : List Message)
      → ms ≡ rest
      → (if not (already a calls o) then m ∷ ms else ms)
        ≡ open_message (λ call. contains calls call) m o rest
  open_step calls m none ms rest h = ap (λ l. m ∷ l) h
  open_step calls m (some call) ms rest h = known (contains calls call)
    where
      known : (b : Bool) → (if not b then m ∷ ms else ms) ≡ open_next b m rest
      known true = h
      known false = ap (λ l. m ∷ l) h

  resubmitted-open_of :
      (calls : List String) (ms : List Message)
      → resubmitted_of a calls ms ≡ open_of (λ call. contains calls call) ms
  resubmitted-open_of calls [] = refl
  resubmitted-open_of calls (m ∷ ms) =
      open_step calls m (answers m.body) (resubmitted_of a calls ms)
        (open_of (λ call. contains calls call) ms) (resubmitted-open_of calls ms)

  pub continued_history-Continues :
      (history : Messages) (posted : List Message)
      → Continues history (continued_history a history posted).0
        × UnnamedFor
            (turn_id a (turn_of posted) posted history)
            (continued_history a history posted).0
        × All
            (λ m.
              already a (answered a (continued_history a history posted).0) (answers m.body)
              ≡ false)
            (continued_history a history posted).1
        × (spoken (continued_history a history posted).1 ≡ spoken (turn_of posted))
        × ((continued_history a history posted).1
            ≡ open_of
                (λ call. contains (answered a (continued_history a history posted).0) call)
                (turn_of posted))
  unfolding continued_history turn_of
  continued_history-Continues history posted =
      let new_turn = drop (after_last_response a posted) posted in
      let k = kept_for_lem history (turn_id a new_turn posted history) in
      let calls = answered a (kept_for a history (turn_id a new_turn posted history)) in
      (
        k.0,
        k.1,
        All-weaken (resubmitted_of a calls new_turn)
            (λ m h. not_true→false (already a calls (answers m.body)) h)
            (All-keep_if (λ (m : Message). not (already a calls (answers m.body))) new_turn),
        keep_if_again (λ (m : Message). not (already a calls (answers m.body)))
            (λ m. not (is_result (answers m.body))) (λ m. unanswered calls (answers m.body))
            new_turn,
        resubmitted-open_of calls new_turn,
      )
