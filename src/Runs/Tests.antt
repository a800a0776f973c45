-- ===== src/Runs/Tests.antt =====
-- One user's runs (django_ag_ui/agent/runs_view.py).
use django_ag_ui.Base.{
  ℕ, String, Text, List, none, some, [], ◌∷◌, ◌≡◌, ◌↔◌, reverse, map, refl, codes,
}
use django_ag_ui.Base.Spaces.{words, split_at_spaces, is_space}
use django_ag_ui.Http.{Method, Reply.json}
use django_ag_ui.Runs.{
  Prompt.line, Prompt.items, prompt_text, Part, Part.user_prompt, Part.tool_return, Run, RunsView,
  one_line, preview, in_messages, in_parts, call,
}
use django_ag_ui.Runs.Preview.{said, first_of, preview-eq-first_of, Shows, one_line-Shows}
use django_ag_ui.Runs.Newest.{row_of, Listed, call_lists}

-- A file that a tool handed over stands beside its return, after the question.
abbrev history : List (List Part)
history =
    (user_prompt (line (codes "first")) ∷ [])
    ∷ (user_prompt (line (codes " which\n one? ")) ∷ [])
    ∷ (tool_return ∷ user_prompt (items (none ∷ [])) ∷ [])
    ∷ []

newest_prompt_wins : preview history ≡ some (codes "which one?")
unfolding preview in_messages in_parts one_line words split_at_spaces is_space
newest_prompt_wins = refl

preview-eq-first_of_example : preview history ≡ first_of (said (reverse history))
preview-eq-first_of_example = preview-eq-first_of history

one_line-Shows_example :
    ((p : Text)
      → one_line (line (codes "a b")) ≡ some p
      → Shows (words (prompt_text (line (codes "a b")))) p)
    × (one_line (line (codes "a b")) ≡ none ↔ words (prompt_text (line (codes "a b"))) ≡ [])
one_line-Shows_example = one_line-Shows (line (codes "a b"))

abbrev run : String → Run
run k = record { run_id = k; conversation_id = none; parent_run_id = none; started_at = none }

abbrev runs_view : RunsView ℕ
runs_view = record {
  authorize = λ w. none;
  list_runs = λ w. some (run "r1" ∷ run "r2" ∷ run "r3" ∷ []);
  latest_snapshot = λ k w. none;
  run_list_limit = 2;
}

call_lists_example :
    (shown : List Run) × Listed runs_view 0 (run "r1" ∷ run "r2" ∷ run "r3" ∷ []) shown
    × (call runs_view 0 Method.get ≡ json 200 (reverse (map (row_of runs_view 0) shown)))
call_lists_example = call_lists runs_view 0 (run "r1" ∷ run "r2" ∷ run "r3" ∷ []) refl refl
