-- ===== src/Charts.antt =====
-- django_ag_ui/agent/types/chart_spec.py, chart_limits.py and chart_points_delta.py: which charts
-- are sent, and which new points for one of their series. Of a number only its finiteness and its
-- magnitude are looked at, which are parameters.
pub mod Redrawn
mod Tests
use django_ag_ui.Base.{
  ℕ, zero, suc, ◌*◌, String, List, Option, Bool, true, false, none, some, [], ◌∷◌, ◌⊎◌, inl, inr,
  not, any, length, ltb, nat_eq, is_empty, if◌then◌else◌,
}
use django_ag_ui.Base.Int.{ℤ, pos, negsuc, is_negative}
use django_ag_ui.Wire.{Fields}

-- `MAX_POINTS` and `MAX_LABELS`
abbrev pub max_points : ℕ
max_points = 20000

abbrev pub max_labels : ℕ
max_labels = 2000

-- What should be a `str`: one, or a value of another type.
pub data Label : Type 0 where
  a_str : String → Label
  no_str : Label

abbrev pub is_str : Label → Bool
is_str (a_str s) = true
is_str no_str = false

-- What should be a number: an `int` or `float`, or a value of another type or a `bool`.
pub data Point (Number : Type 0) : Type 0 where
  a_number : Number → Point Number
  no_number : Point Number

-- `ChartSeries`
pub record ChartSeries (Number : Type 0) : Type 0 where
  pub label : Label
  pub points : List (Point Number)

-- `ChartSpec`
pub record ChartSpec (Number : Type 0) : Type 0 where
  pub labels : List Label
  pub series : List (ChartSeries Number)
  pub kind : String
  pub title : Option Label
  pub metadata : Fields

-- The `ValueError`s, by what they say.
pub data Error : Type 0 where
  no_labels : Error
  no_series : Error
  bad_title : Error
  bad_label : Error
  too_many_labels : Error
  too_many_points : Error
  bad_series_label : Error
  uneven_series : Error
  bad_point : Error
  infinite_point : Error
  huge_point : Error
  negative_series : Error
  no_points : Error
  no_such_series : Error
  uneven_delta : Error

-- `if test: raise error`
abbrev pub raise_if : Bool → Error → Option Error → Option Error
raise_if true error rest = some error
raise_if false error rest = rest

abbrev pub and_also : Option Error → Option Error → Option Error
and_also (some error) rest = some error
and_also none rest = rest

-- `title is not None and not isinstance(title, str)`
abbrev pub is_bad_title : Option Label → Bool
is_bad_title none = false
is_bad_title (some title) = not (is_str title)

-- `ActivityDeltaEvent` whose patch replaces the points of one series.
pub record Delta (Number : Type 0) : Type 0 where
  pub message_id : String
  pub series : ℕ
  pub value : List (Point Number)

abbrev pub index : ℤ → ℕ
index (pos n) = n
index (negsuc n) = 0

-- `math.isfinite` and `abs(point) > MAX_MAGNITUDE`
module _ {Number : Type 0} (is_finite is_huge : Number → Bool) where
  -- `validate_point`
  abbrev validate_point : Point Number → Option Error
  validate_point no_number = some bad_point
  validate_point (a_number n) =
      raise_if (not (is_finite n)) infinite_point (raise_if (is_huge n) huge_point none)

  -- The loop over the points.
  unfoldable pub validate_points : List (Point Number) → Option Error
  validate_points [] = none
  validate_points (p ∷ ps) = and_also (validate_point p) (validate_points ps)

  abbrev pub validate_entry : ℕ → ChartSeries Number → Option Error
  unfolding validate_points
  validate_entry n entry =
      raise_if (not (is_str entry.label)) bad_series_label (
        raise_if (not (nat_eq (length entry.points) n)) uneven_series
          (validate_points entry.points))

  -- The loop over the series.
  unfoldable pub validate_series : ℕ → List (ChartSeries Number) → Option Error
  unfolding validate_entry
  validate_series n [] = none
  validate_series n (entry ∷ ss) = and_also (validate_entry n entry) (validate_series n ss)

  -- `ChartSpec.validate`
  unfoldable pub validate : ChartSpec Number → Option Error
  unfolding validate_series
  validate spec = raise_if (is_empty spec.labels) no_labels (
      raise_if (is_empty spec.series) no_series (
        raise_if (is_bad_title spec.title) bad_title (
          raise_if (any (λ l. not (is_str l)) spec.labels) bad_label (
            raise_if (ltb max_labels (length spec.labels)) too_many_labels (
              raise_if (ltb max_points (length spec.labels * length spec.series)) too_many_points
                (validate_series (length spec.labels) spec.series))))))

  abbrev pub fits : ℕ → List (Point Number) → Option (ChartSpec Number) → Option Error
  fits series points none = none
  fits series points (some spec) =
      raise_if (not (ltb series (length spec.series))) no_such_series
        (raise_if (not (nat_eq (length points) (length spec.labels))) uneven_delta none)

  abbrev pub unless_raised : Option Error → Delta Number → Error ⊎ Delta Number
  unless_raised (some error) delta = inl error
  unless_raised none delta = inr delta

  -- The tests of `chart_points_delta`.
  abbrev pub delta_error : ℤ → List (Point Number) → Option (ChartSpec Number) → Option Error
  unfolding validate_points
  delta_error series points spec = raise_if (is_negative series) negative_series (
      raise_if (is_empty points) no_points
        (and_also (validate_points points) (fits (index series) points spec)))

  -- `chart_points_delta`
  unfoldable pub chart_points_delta :
      String → ℤ → List (Point Number) → Option (ChartSpec Number) → Error ⊎ Delta Number
  unfolding delta_error
  chart_points_delta chart_id series points spec =
      unless_raised (delta_error series points spec)
        (record { message_id = chart_id; series = index series; value = points })
