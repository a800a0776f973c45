-- ===== src/Runs.antt =====
-- django_ag_ui/agent/runs_view.py: the list of runs, newest first, each with a preview of the prompt
-- it was started to answer. The step store is a parameter.
pub mod Preview
pub mod Newest
mod Tests
use django_ag_ui.Base.{
  ℕ, zero, suc, ◌-◌, String, Text, List, Option, Bool, true, false, none, some, [], ◌∷◌, ◌++◌,
  reverse, length, take, drop, leb, is_empty, if◌then◌else◌,
}
use django_ag_ui.Base.Spaces.{rstrip, words, join_words}
use django_ag_ui.Http.{Method, Reply, Reply.json, Reply.not_allowed, Reply.auth_error, Method.get}

-- The `content` of a `UserPromptPart`: a text, or items of which some are texts.
pub data Prompt : Type 0 where
  line : Text → Prompt
  items : List (Option Text) → Prompt

-- The parts of a model message that `_preview` tells apart.
pub data Part : Type 0 where
  user_prompt : Prompt → Part
  tool_return : Part
  other_part : Part

abbrev preview_limit : ℕ
preview_limit = 100

-- The items that are texts.
abbrev texts : List (Option Text) → List Text
texts [] = []
texts (none ∷ is) = texts is
texts (some t ∷ is) = t ∷ texts is

abbrev pub prompt_text : Prompt → Text
prompt_text (line t) = t
prompt_text (items is) = join_words (texts is)

abbrev ellipsis : Text
ellipsis = 8230 ∷ []

abbrev pub shortened : Text → Option Text
unfolding rstrip
shortened [] = none
shortened (c ∷ s) =
    if leb (length (c ∷ s)) preview_limit
    then some (c ∷ s)
    else some (rstrip (take preview_limit (c ∷ s)) ++ ellipsis)

-- `_one_line`
unfoldable pub one_line : Prompt → Option Text
unfolding shortened words
one_line content = shortened (join_words (words (prompt_text content)))

-- `_answers_a_tool`
abbrev pub answers_a_tool : List Part → Bool
answers_a_tool [] = false
answers_a_tool (tool_return ∷ ps) = true
answers_a_tool (p ∷ ps) = answers_a_tool ps

-- How a loop of `_preview` ends: it runs out, or it returns.
pub data Ended : Type 0 where
  ran_out : Ended
  returned : Option Text → Ended

abbrev pub unless_skipped : Bool → Option Text → Ended → Ended
unless_skipped true none rest = rest
unless_skipped answers preview rest = returned preview

-- The loop over the parts of a message, newest first.
unfoldable pub in_parts : Bool → List Part → Ended
unfolding one_line
in_parts answers [] = ran_out
in_parts answers (user_prompt content ∷ ps) =
    unless_skipped answers (one_line content) (in_parts answers ps)
in_parts answers (p ∷ ps) = in_parts answers ps

abbrev pub or_next : Ended → Ended → Ended
or_next ran_out rest = rest
or_next (returned p) rest = returned p

-- The loop over the messages, newest first.
unfoldable pub in_messages : List (List Part) → Ended
unfolding in_parts
in_messages [] = ran_out
in_messages (m ∷ ms) = or_next (in_parts (answers_a_tool m) (reverse m)) (in_messages ms)

abbrev pub preview_of : Ended → Option Text
preview_of ran_out = none
preview_of (returned p) = p

-- `_preview` of a snapshot's messages.
unfoldable pub preview : List (List Part) → Option Text
unfolding in_messages
preview ms = preview_of (in_messages (reverse ms))

-- `_newest`: the last `limit` records, or all of them for a limit of 0.
unfoldable pub newest : {A : Type 0} → List A → ℕ → List A
newest runs zero = runs
newest runs (suc limit) = drop (length runs - suc limit) runs

pub record Run : Type 0 where
  pub run_id : String
  pub conversation_id : Option String
  pub parent_run_id : Option String
  pub started_at : Option Text

pub record Row : Type 0 where
  pub run_id : String
  pub thread_id : Option String
  pub parent_run_id : Option String
  pub started_at : Option Text
  continuable : Bool
  pub preview : Option Text

abbrev row_preview : Option (List (List Part)) → Option Text
unfolding preview
row_preview none = none
row_preview (some ms) = preview ms

abbrev is_some : {A : Type 0} → Option A → Bool
is_some none = false
is_some (some a) = true

-- `_run_to_json`
unfoldable pub run_to_json : Run → Option (List (List Part)) → Row
unfolding row_preview
run_to_json r snapshot = record {
  run_id = r.run_id;
  thread_id = r.conversation_id;
  parent_run_id = r.parent_run_id;
  started_at = r.started_at;
  continuable = is_some snapshot;
  preview = row_preview snapshot;
}

-- `list_runs` is `none` where it raises `AnonymousOperationError`.
pub record RunsView (World : Type 0) : Type 0 where
  pub authorize : World → Option ℕ
  pub list_runs : World → Option (List Run)
  pub latest_snapshot : String → World → Option (List (List Part))
  pub run_list_limit : ℕ

module _ {World : Type 0} (v : RunsView World) (w : World) where
  unfoldable pub rows : List Run → List Row
  unfolding run_to_json
  rows [] = []
  rows (r ∷ rs) = run_to_json r (v.latest_snapshot r.run_id w) ∷ rows rs

  -- `_list`
  pub listed : Option (List Run) → Reply (List Row)
  unfolding rows newest
  listed none = auth_error 403
  listed (some runs) = json 200 (reverse (rows (newest runs v.run_list_limit)))

  pub by_method : Method → Reply (List Row)
  unfolding listed
  by_method Method.get = listed (v.list_runs w)
  by_method _ = not_allowed (get ∷ [])

  pub unless_denied : Method → Option ℕ → Reply (List Row)
  unfolding by_method
  unless_denied method (some code) = auth_error code
  unless_denied method none = by_method method

  -- `RunsView.__call__`
  unfoldable pub call : Method → Reply (List Row)
  unfolding unless_denied
  call method = unless_denied method (v.authorize w)
