-- ===== src/Charts/Tests.antt =====
-- A chart of two series over three labels, whose second series is redrawn
-- (django_ag_ui/agent/chart_points_delta.py).
use django_ag_ui.Base.{ℕ, List, Bool, true, none, some, [], ◌∷◌, ◌≡◌, refl, inl, ltb}
use django_ag_ui.Base.Int.{pos}
use django_ag_ui.Charts.{
  a_str, Point, a_number, ChartSpec, Error, validate, validate_points, validate_series,
  chart_points_delta,
}
use django_ag_ui.Charts.Redrawn.{Redraws, chart_points_delta-Redraws}

abbrev is_huge : ℕ → Bool
is_huge n = ltb 1000000000000000 n

abbrev three : ℕ → List (Point ℕ)
three n = a_number n ∷ a_number n ∷ a_number n ∷ []

abbrev chart : ChartSpec ℕ
chart = record {
  labels = a_str "Mon" ∷ a_str "Tue" ∷ a_str "Wed" ∷ [];
  series =
      record { label = a_str "in"; points = three 1 }
      ∷ record { label = a_str "out"; points = three 2 }
      ∷ [];
  kind = "bar";
  title = none;
  metadata = [];
}

is_valid : validate (λ n. true) is_huge chart ≡ none
unfolding validate validate_series validate_points
is_valid = refl

too_short :
    chart_points_delta (λ n. true) is_huge "c1" (pos 1) (a_number 3 ∷ []) (some chart)
    ≡ inl Error.uneven_delta
unfolding chart_points_delta validate_points
too_short = refl

chart_points_delta-Redraws_example :
    Redraws
      (λ n. true)
      is_huge
      "c1"
      (pos 1)
      (three 3)
      chart
      (chart_points_delta (λ n. true) is_huge "c1" (pos 1) (three 3) (some chart))
chart_points_delta-Redraws_example =
    chart_points_delta-Redraws (λ n. true) is_huge "c1" (pos 1) (three 3) chart is_valid
