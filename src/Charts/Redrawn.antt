-- ===== src/Charts/Redrawn.antt =====
-- That new points leave a chart one that can be drawn (django_ag_ui/agent/chart_points_delta.py).
use django_ag_ui.Base.{
  ℕ, zero, suc, ◌*◌, ◌<◌, String, List, Option, Bool, true, false, none, some, [], ◌∷◌, ◌⊎◌, ◌≡◌,
  refl, ap, ◌∙◌, inl, inr, not, any, length, ltb, ltb→lt, nat_eq, is_empty,
}
use django_ag_ui.Base.Int.{ℤ, pos, negsuc}
use django_ag_ui.Charts.{
  max_points, max_labels, is_str, Point, ChartSeries, ChartSpec, Error, raise_if, and_also,
  is_bad_title, Delta, index, validate_points, validate_entry, validate_series, validate,
  unless_raised, delta_error, chart_points_delta,
}

raised_none :
    (b : Bool) (e : Error) (r : Option Error) → raise_if b e r ≡ none → (b ≡ false) × (r ≡ none)
raised_none true e r h = cc h
raised_none false e r h = (refl, h)

none_raised :
    (b : Bool) (e : Error) (r : Option Error) → b ≡ false → r ≡ none → raise_if b e r ≡ none
none_raised true e r h g = cc h
none_raised false e r h g = g

both_none : (a r : Option Error) → and_also a r ≡ none → (a ≡ none) × (r ≡ none)
both_none none r h = (refl, h)
both_none (some e) r h = cc h

none_both : (a r : Option Error) → a ≡ none → r ≡ none → and_also a r ≡ none
none_both none r h g = g
none_both (some e) r h g = cc h

not-false : (b : Bool) → not b ≡ false → b ≡ true
not-false true h = refl
not-false false h = cc h

-- The client's replacement of the points of one series.
abbrev pub redrawn : {N : Type 0} → ℕ → List (Point N) → List (ChartSeries N) → List (ChartSeries N)
redrawn i ps [] = []
redrawn zero ps (s ∷ ss) = record s { points = ps } ∷ ss
redrawn (suc i) ps (s ∷ ss) = s ∷ redrawn i ps ss

abbrev with_points : {N : Type 0} → Delta N → ChartSpec N → ChartSpec N
with_points d spec = record spec { series = redrawn d.series d.value spec.series }

module _ {N : Type 0} where
  length-redrawn :
      (i : ℕ) (ps : List (Point N)) (ss : List (ChartSeries N))
      → length (redrawn i ps ss) ≡ length ss
  length-redrawn i ps [] = refl
  length-redrawn zero ps (s ∷ ss) = refl
  length-redrawn (suc i) ps (s ∷ ss) = ap suc (length-redrawn i ps ss)

  is_empty-redrawn :
      (i : ℕ) (ps : List (Point N)) (ss : List (ChartSeries N))
      → is_empty (redrawn i ps ss) ≡ is_empty ss
  is_empty-redrawn i ps [] = refl
  is_empty-redrawn zero ps (s ∷ ss) = refl
  is_empty-redrawn (suc i) ps (s ∷ ss) = refl

  module _ (is_finite is_huge : N → Bool) where
    entry_lem :
        (n : ℕ) (ps : List (Point N)) (s : ChartSeries N)
        → validate_entry is_finite is_huge n s ≡ none
        → nat_eq (length ps) n ≡ true
        → validate_points is_finite is_huge ps ≡ none
        → validate_entry is_finite is_huge n (record s { points = ps }) ≡ none
    unfolding validate_entry
    entry_lem n ps s h l v =
        none_raised (not (is_str s.label)) Error.bad_series_label _ (raised_none _ _ _ h).0 (
          none_raised (not (nat_eq (length ps) n)) Error.uneven_series
            (validate_points is_finite is_huge ps) (ap not l) v)

    series_lem :
        (n i : ℕ) (ps : List (Point N)) (ss : List (ChartSeries N))
        → validate_series is_finite is_huge n ss ≡ none
        → nat_eq (length ps) n ≡ true
        → validate_points is_finite is_huge ps ≡ none
        → validate_series is_finite is_huge n (redrawn i ps ss) ≡ none
    unfolding validate_series
    series_lem n i ps [] h l v = refl
    series_lem n zero ps (s ∷ ss) h l v =
        let b =
          both_none (validate_entry is_finite is_huge n s) (validate_series is_finite is_huge n ss)
            h in
        none_both (validate_entry is_finite is_huge n (record s { points = ps }))
          (validate_series is_finite is_huge n ss) (entry_lem n ps s b.0 l v) b.1
    series_lem n (suc i) ps (s ∷ ss) h l v =
        let b =
          both_none (validate_entry is_finite is_huge n s) (validate_series is_finite is_huge n ss)
            h in
        none_both (validate_entry is_finite is_huge n s)
          (validate_series is_finite is_huge n (redrawn i ps ss)) b.0 (series_lem n i ps ss b.1 l v)

    redrawn_lem :
        (d : Delta N) (spec : ChartSpec N)
        → validate is_finite is_huge spec ≡ none
        → nat_eq (length d.value) (length spec.labels) ≡ true
        → validate_points is_finite is_huge d.value ≡ none
        → validate is_finite is_huge (with_points d spec) ≡ none
    unfolding validate
    redrawn_lem d spec h l v =
        let a = raised_none (is_empty spec.labels) Error.no_labels _ h in
        let b = raised_none (is_empty spec.series) Error.no_series _ a.1 in
        let c = raised_none (is_bad_title spec.title) Error.bad_title _ b.1 in
        let e = raised_none (any (λ z. not (is_str z)) spec.labels) Error.bad_label _ c.1 in
        let f = raised_none (ltb max_labels (length spec.labels)) Error.too_many_labels _ e.1 in
        let g =
          raised_none (ltb max_points (length spec.labels * length spec.series))
            Error.too_many_points _ f.1 in
        none_raised _ Error.no_labels _ a.0 (
          none_raised _ Error.no_series _ (is_empty-redrawn d.series d.value spec.series ∙ b.0) (
            none_raised _ Error.bad_title _ c.0 (
              none_raised _ Error.bad_label _ e.0 (
                none_raised _ Error.too_many_labels _ f.0 (
                  none_raised _ Error.too_many_points _
                    (ap (λ n. ltb max_points (length spec.labels * n))
                        (length-redrawn d.series d.value spec.series)
                      ∙ g.0)
                    (series_lem (length spec.labels) d.series d.value spec.series g.1 l v))))))

    -- What a delta that is sent for a chart holds.
    abbrev pub Redraws : String → ℤ → List (Point N) → ChartSpec N → Error ⊎ Delta N → Type 0
    Redraws chart_id series points spec (inl e) = Unit
    Redraws chart_id series points spec (inr d) =
        (d.message_id ≡ chart_id)
        × (series ≡ pos d.series)
        × (d.value ≡ points)
        × (d.series < length spec.series)
        × (validate is_finite is_huge (with_points d spec) ≡ none)

    sent_lem :
        (o : Option Error) (chart_id : String) (series : ℤ) (points : List (Point N))
        (spec : ChartSpec N)
        → validate is_finite is_huge spec ≡ none
        → delta_error is_finite is_huge series points (some spec) ≡ o
        → Redraws chart_id series points spec (
            unless_raised is_finite is_huge o
              (record { message_id = chart_id; series = index series; value = points }))
    unfolding delta_error
    sent_lem (some e) chart_id series points spec h g = tt
    sent_lem none chart_id (negsuc n) points spec h g = cc g
    sent_lem none chart_id (pos n) points spec h g =
        let a = raised_none (is_empty points) Error.no_points _ g in
        let b = both_none (validate_points is_finite is_huge points) _ a.1 in
        let c = raised_none (not (ltb n (length spec.series))) Error.no_such_series _ b.1 in
        let e =
          raised_none (not (nat_eq (length points) (length spec.labels))) Error.uneven_delta none
            c.1 in
        (
          refl,
          refl,
          refl,
          ltb→lt n (length spec.series) (not-false (ltb n (length spec.series)) c.0),
          redrawn_lem (record { message_id = chart_id; series = n; value = points }) spec h
              (not-false (nat_eq (length points) (length spec.labels)) e.0) b.0,
        )

    -- Whatever points are given for one series of a chart that passed its validation and is handed to
    -- the call: if the delta is sent at all, it names a series that the chart has, and the chart with
    -- those points in place passes the validation again.
    pub chart_points_delta-Redraws :
        (chart_id : String) (series : ℤ) (points : List (Point N)) (spec : ChartSpec N)
        → validate is_finite is_huge spec ≡ none
        → Redraws chart_id series points spec
            (chart_points_delta is_finite is_huge chart_id series points (some spec))
    unfolding chart_points_delta
    chart_points_delta-Redraws chart_id series points spec h =
        sent_lem (delta_error is_finite is_huge series points (some spec)) chart_id series points
          spec h refl
