-- ===== src/Runs/Newest.antt =====
-- Which runs are listed, and in what order (django_ag_ui/agent/runs_view.py).
use django_ag_ui.Base.{
  ℕ, zero, suc, ◌-◌, ◌≤◌, List, none, some, [], ◌∷◌, ◌++◌, ◌≡◌, refl, ap, reverse, map, min, length,
  take, length-drop, take-append-drop, arith,
}
use django_ag_ui.Http.{Method, Reply.json}
use django_ag_ui.Runs.{
  Run, Row, RunsView, newest, run_to_json, rows, listed, by_method, unless_denied, call,
}

newest_lem :
    {A : Type 0} (runs : List A) (limit : ℕ)
    → ((older : List A) × (older ++ newest runs limit ≡ runs))
      × (1 ≤ limit → length (newest runs limit) ≡ min limit (length runs))
      × (limit ≡ 0 → newest runs limit ≡ runs)
unfolding newest
newest_lem runs zero = (([], refl), λ h. omega (arith, h), λ e. refl)
newest_lem runs (suc limit) = (
  (take (length runs - suc limit) runs, take-append-drop (length runs - suc limit) runs),
  λ h. omega (arith, length-drop (length runs - suc limit) runs),
  λ e. let clash : ⊥ = omega (arith, e) in absurd clash,
)

module _ {World : Type 0} (v : RunsView World) (w : World) where
  -- A row of a run, with what resuming it would find.
  abbrev pub row_of : Run → Row
  unfolding run_to_json
  row_of r = run_to_json r (v.latest_snapshot r.run_id w)

  rows-map : (rs : List Run) → rows v w rs ≡ map row_of rs
  unfolding rows row_of
  rows-map [] = refl
  rows-map (r ∷ rs) = ap (λ l. row_of r ∷ l) (rows-map rs)

  -- The runs listed are the last of the store's ones: as many as the limit, or all of them where
  -- there are fewer or the limit is 0.
  abbrev pub Listed : List Run → List Run → Type 0
  Listed runs shown =
      ((older : List Run) × (older ++ shown ≡ runs))
      × (1 ≤ v.run_list_limit → length shown ≡ min v.run_list_limit (length runs))
      × (v.run_list_limit ≡ 0 → shown ≡ runs)

  -- An allowed GET lists the last runs of the store, newest first, each with its own checkpoint.
  pub call_lists :
      (runs : List Run)
      → v.authorize w ≡ none
      → v.list_runs w ≡ some runs
      → (shown : List Run) × Listed runs shown
        × (call v w Method.get ≡ json 200 (reverse (map row_of shown)))
  unfolding call unless_denied by_method listed row_of
  call_lists runs a l = (
    newest runs v.run_list_limit,
    newest_lem runs v.run_list_limit,
    rw (a, l) (ap (λ z. json 200 (reverse z)) (rows-map (newest runs v.run_list_limit))),
  )
