-- ===== src/History/Tests.antt =====
-- A history of two turns, whose second the client posts anew
-- (django_ag_ui/agent/continued_history.py, strip_binary_content.py).
use django_ag_ui.Base.{ℕ, String, List, Bool, true, false, none, [], ◌∷◌, ◌≡◌, refl, codes, All}
use django_ag_ui.Wire.{
  text, media, inline_bytes, plain, parts, Body, Message, user, assistant, tool,
}
use django_ag_ui.History.{
  RequestPart, user_prompt, tool_return, ModelMessage, request, response, Adapter,
  strip_binary_content, continued_history, cut_at, answered, turn_id, last_contributor,
  after_last_response, after_last,
}
use django_ag_ui.History.Stripped.{Clean, shown, strip_binary_content-Clean}

abbrev message : String → Body → Message
message k b = record { id = k; body = b; metadata = none; extra = [] }

abbrev is_assistant : Body → Bool
is_assistant (assistant t c) = true
is_assistant b = false

-- A request is named by the text of its prompt.
abbrev prompt_id : List RequestPart → String
prompt_id [] = "none"
prompt_id (user_prompt t ∷ ps) = "u2"
prompt_id (p ∷ ps) = prompt_id ps

abbrev adapter : Adapter ℕ
adapter = record {
  loads_response = λ m. is_assistant m.body;
  loads = λ m. true;
  last_dumped_id = prompt_id;
  pending_tool_calls = λ h. [];
}

abbrev stored : List (ModelMessage ℕ)
stored = response 1 ∷ request (tool_return "c1" ∷ user_prompt (codes "old") ∷ []) ∷ response 2 ∷ []

abbrev posted : List Message
posted =
    message "a1" (assistant none none)
    ∷ message "t1" (tool "c1" (codes "ok"))
    ∷ message "u2" (user (plain (codes "new")))
    ∷ []

edited_turn : continued_history adapter stored posted ≡ (
  response 1 ∷ request (tool_return "c1" ∷ []) ∷ [],
  message "u2" (user (plain (codes "new"))) ∷ [],
)
unfolding continued_history cut_at answered turn_id last_contributor after_last_response after_last
edited_turn = refl

abbrev with_file : List Message
with_file =
    message "f1"
      (user (parts (text (codes "see") ∷ media "image" (inline_bytes (codes "AAA")) ∷ [])))
    ∷ message "f2" (user (parts (media "document" (inline_bytes (codes "BBB")) ∷ [])))
    ∷ []

strip_binary_content-Clean_example :
    All Clean (strip_binary_content with_file)
    × (strip_binary_content (strip_binary_content with_file) ≡ strip_binary_content with_file)
    × (shown (strip_binary_content with_file) ≡ shown with_file)
strip_binary_content-Clean_example = strip_binary_content-Clean with_file
