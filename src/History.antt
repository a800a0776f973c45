-- ===== src/History.antt =====
-- The history of a resumed run: django_ag_ui/agent/strip_binary_content.py and
-- django_ag_ui/agent/continued_history.py. What pydantic-ai's adapter loads and dumps is a
-- parameter.
pub mod Stripped
pub mod Continued
mod Tests
use django_ag_ui.Base.{
  ℕ, zero, suc, ◌-◌, String, Text, List, Option, Bool, true, false, none, some, [], ◌∷◌, ◌++◌, ◌||◌,
  ◌&&◌, ◌==◌, not, length, nat_eq, drop, reverse, contains, is_empty, keep_if, any, if◌then◌else◌,
}
use django_ag_ui.Wire.{
  Part, media, inline_bytes, Content, plain, parts, Body, Message, user, assistant, tool, ToolCall,
}

-- `_is_inline_binary`
abbrev pub is_inline_binary : Part → Bool
is_inline_binary (media kind (inline_bytes bytes)) = true
is_inline_binary p = false

abbrev pub others : List Part → List Part
others ps = keep_if (λ p. not (is_inline_binary p)) ps

abbrev with_parts : Message → List Part → Message
with_parts m ps = record m { body = user (parts ps) }

-- What the loop keeps of a message whose content is a list.
abbrev pub kept_parts : Message → List Part → List Part → List Message
kept_parts m ps [] = []
kept_parts m ps (q ∷ qs) =
    if nat_eq (length (q ∷ qs)) (length ps) then m ∷ [] else with_parts m (q ∷ qs) ∷ []

abbrev pub kept_message : Message → Body → List Message
kept_message m (user (parts ps)) = kept_parts m ps (others ps)
kept_message m b = m ∷ []

-- `strip_binary_content`
unfoldable pub strip_binary_content : List Message → List Message
strip_binary_content [] = []
strip_binary_content (m ∷ ms) = kept_message m m.body ++ strip_binary_content ms

-- The parts of a `ModelRequest` that the code tells apart; a retry prompt names its tool, if it
-- answers one.
pub data RequestPart : Type 0 where
  user_prompt : Text → RequestPart
  tool_return : String → RequestPart
  retry_prompt : Option String → String → RequestPart
  other_part : RequestPart

-- `Response` stands for the parts of a `ModelResponse`, which are not looked into.
pub data ModelMessage (Response : Type 0) : Type 0 where
  request : List RequestPart → ModelMessage Response
  response : Response → ModelMessage Response

-- `_is_tool_result`, with the call that the part answers.
abbrev answered_call : RequestPart → Option String
answered_call (tool_return call) = some call
answered_call (retry_prompt (some tool_name) call) = some call
answered_call p = none

abbrev pub is_tool_result : RequestPart → Bool
is_tool_result (tool_return call) = true
is_tool_result (retry_prompt (some tool_name) call) = true
is_tool_result p = false

abbrev pub is_user_prompt : RequestPart → Bool
is_user_prompt (user_prompt t) = true
is_user_prompt p = false

-- What pydantic-ai makes of a message: whether it loads into a response and whether it loads into
-- anything at all, the id of the last message that a request dumps to, and `pending_tool_calls`.
pub record Adapter (Response : Type 0) : Type 0 where
  pub loads_response : Message → Bool
  pub loads : Message → Bool
  pub last_dumped_id : List RequestPart → String
  pub pending_tool_calls : List (ModelMessage Response) → List String

abbrev pub answers : Body → Option String
answers (tool call content) = some call
answers b = none

abbrev call_ids : Option (List ToolCall) → List String
call_ids none = []
call_ids (some []) = []
call_ids (some (c ∷ cs)) = c.id ∷ call_ids (some cs)

abbrev calls_in : Body → List String
calls_in (assistant content calls) = call_ids calls
calls_in b = []

-- `called`
abbrev pub called : List Message → List String
called [] = []
called (m ∷ ms) = calls_in m.body ++ called ms

module _ {Response : Type 0} (a : Adapter Response) where
  abbrev responds : Message → Option String → Bool
  responds m (some call) = false
  responds m none = a.loads_response m

  -- The loop of `_after_last_response`, from the last message on; the number is the index after
  -- the message that is looked at.
  unfoldable pub after_last : List Message → ℕ → ℕ
  after_last [] n = 0
  after_last (m ∷ ms) n =
      let rest = after_last ms (n - 1) in if responds m (answers m.body) then n else rest

  -- `_after_last_response`
  unfoldable pub after_last_response : List Message → ℕ
  unfolding after_last
  after_last_response posted = after_last (reverse posted) (length posted)

  abbrev contributes : List String → List String → Message → Option String → Bool
  contributes known pending m (some call) = contains known call || contains pending call
  contributes known pending m none = a.loads m

  -- The loop of `_turn_id` over the new turn, last message first.
  unfoldable pub last_contributor : List String → List String → List Message → Option String
  last_contributor known pending [] = none
  last_contributor known pending (m ∷ ms) =
      if contributes known pending m (answers m.body)
      then some m.id
      else last_contributor known pending ms

  -- `_turn_id`
  unfoldable pub turn_id :
      List Message → List Message → List (ModelMessage Response) → Option String
  unfolding last_contributor
  turn_id new_turn posted history =
      last_contributor (called posted) (a.pending_tool_calls history) (reverse new_turn)

  -- `_names`
  unfoldable pub names : String → ModelMessage Response → Bool
  names turn (response r) = false
  names turn (request ps) = any is_user_prompt ps && a.last_dumped_id ps == turn

  abbrev parts_of : ModelMessage Response → List RequestPart
  parts_of (request ps) = ps
  parts_of (response r) = []

  abbrev pub Cut : Type 0
  Cut = Option (List (ModelMessage Response) × List RequestPart)

  abbrev pub cut_next : Bool → ModelMessage Response → Cut → Cut
  cut_next true m rest = some ([], parts_of m)
  cut_next false m none = none
  cut_next false m (some (before, ps)) = some (m ∷ before, ps)

  -- `history[:cut]` and the parts of `history[cut]`, for the first message that names the turn.
  unfoldable pub cut_at : String → List (ModelMessage Response) → Cut
  unfolding names
  cut_at turn [] = none
  cut_at turn (m ∷ ms) = cut_next (names turn m) m (cut_at turn ms)

  abbrev pub results_request : List RequestPart → List (ModelMessage Response)
  results_request [] = []
  results_request (p ∷ ps) = request (p ∷ ps) ∷ []

  abbrev pub kept_of : List (ModelMessage Response) → Cut → List (ModelMessage Response)
  kept_of history none = history
  kept_of history (some (before, ps)) = before ++ results_request (keep_if is_tool_result ps)

  abbrev pub kept_for : List (ModelMessage Response) → Option String → List (ModelMessage Response)
  unfolding cut_at
  kept_for history none = history
  kept_for history (some turn) = kept_of history (cut_at turn history)

  abbrev pub add_call : Option String → List String → List String
  add_call none calls = calls
  add_call (some call) calls = call ∷ calls

  abbrev answered_in : List RequestPart → List String
  answered_in [] = []
  answered_in (p ∷ ps) = add_call (answered_call p) (answered_in ps)

  -- `answered`
  unfoldable pub answered : List (ModelMessage Response) → List String
  answered [] = []
  answered (m ∷ ms) = answered_in (parts_of m) ++ answered ms

  abbrev pub already : List String → Option String → Bool
  already calls none = false
  already calls (some call) = contains calls call

  abbrev pub resubmitted_of : List String → List Message → List Message
  resubmitted_of calls new_turn = keep_if (λ m. not (already calls (answers m.body))) new_turn

  -- `continued_history`
  unfoldable pub continued_history :
      List (ModelMessage Response) → List Message → List (ModelMessage Response) × List Message
  unfolding kept_for answered turn_id after_last_response
  continued_history history posted =
      let new_turn = drop (after_last_response posted) posted in
      let kept = kept_for history (turn_id new_turn posted history) in
      (kept, resubmitted_of (answered kept) new_turn)
