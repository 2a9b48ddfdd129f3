-- ===== src/Scoring/Compute.antt =====
-- backend/app/services/evaluation.py: `compute_result`, and `weight_for` and `recommendation_for` of
-- backend/app/services/scoring_scheme.py.
use nafas_hr.Prelude.{ℕ, ◌==◌, Option, none, some, List, [], ◌∷◌, String, first, if◌then◌else◌}
use nafas_hr.Model.Enums.{IndicatorSection, general, specialized}
use nafas_hr.Model.Evaluation.{Score}
use nafas_hr.Model.Tables.{Indicator}
use nafas_hr.Scheme.{Rules}
use nafas_hr.Scoring.Floats.{FloatOps, larger, smaller}

-- The four sums of the loop.
pub record Sums (F : Type 0) : Type 0 where
  pub general_sum : F
  pub general_max : F
  pub specialized_sum : F
  pub specialized_max : F

-- The dict that `compute_result` returns.
pub record Computed (F : Type 0) : Type 0 where
  pub general_score_pct : F
  pub specialized_score_pct : F
  pub base_weighted_pct : F
  pub bonus_points : F
  pub final_weighted_pct : F
  pub recommendation : String
  pub scheme_version : Option ℕ

-- `indicators_by_id.get`.
unfoldable pub indicator_by_id : ℕ → List Indicator → Option Indicator
indicator_by_id id indicators = first (λ i. i.id == id) indicators

module _ {F : Type 0} (fl : FloatOps F) where
  weight_in : ℕ → List (ℕ × ℕ) → F
  weight_in id [] = fl.decimal 1 0
  weight_in id ((k, w) ∷ rest) = if k == id then fl.decimal w 3 else weight_in id rest

  -- `Rules.weight_for`: an indicator that has no weight weighs 1.
  unfoldable pub weight_for : Rules → ℕ → F
  unfolding weight_in
  weight_for rules id = weight_in id rules.indicator_weights

  recommendation_in : F → String → List (ℕ × String) → String
  recommendation_in pct last [] = last
  recommendation_in pct last ((upper, label) ∷ rest) =
      let later = recommendation_in pct label rest in
      if fl.lt pct (fl.decimal upper 2) then label else later

  -- `Rules.recommendation_for`; none where the table of thresholds is empty, an IndexError.
  unfoldable pub recommendation_for : Rules → F → Option String
  unfolding recommendation_in
  recommendation_for rules pct = elim rules.thresholds [
    | [] ↦ none
    | row ∷ rows ↦ some (recommendation_in pct row.1 (row ∷ rows))
  ]

  -- One round of the loop, for a row of a section.
  add_row : Rules → IndicatorSection → Score → Sums F → Sums F
  add_row rules general row s = record s {
    general_sum =
        fl.add s.general_sum (fl.mul (fl.decimal row.score 0) (weight_for rules row.indicator_id));
    general_max =
        fl.add s.general_max (fl.mul (fl.decimal 5 0) (weight_for rules row.indicator_id));
  }
  add_row rules specialized row s = record s {
    specialized_sum =
        fl.add s.specialized_sum
          (fl.mul (fl.decimal row.score 0) (weight_for rules row.indicator_id));
    specialized_max =
        fl.add s.specialized_max (fl.mul (fl.decimal 5 0) (weight_for rules row.indicator_id));
  }

  -- The loop; none where a row names no indicator, a KeyError.
  unfoldable pub sum_rows : Rules → List Indicator → List Score → Sums F → Option (Sums F)
  unfolding add_row
  sum_rows rules indicators [] s = some s
  sum_rows rules indicators (row ∷ rows) s = elim (indicator_by_id row.indicator_id indicators) [
    | none ↦ none
    | some i ↦ sum_rows rules indicators rows (add_row rules i.section row s)
  ]

  -- `round((sum / max) * 100, 1) if max else 0.0`.
  unfoldable pub section_pct : F → F → F
  section_pct sum max =
      if fl.is_zero max
      then fl.decimal 0 0
      else fl.round_to (fl.mul (fl.div sum max) (fl.decimal 100 0)) 1

  unfoldable pub base_pct : Rules → F → F → F
  base_pct rules general_pct specialized_pct =
      fl.round_to
        (fl.add (fl.mul general_pct (fl.decimal rules.general_section_weight 3))
          (fl.mul specialized_pct (fl.decimal rules.specialized_section_weight 3)))
        1

  -- The special score that counts: not above the rules' limit, nor what is missing to 100.
  unfoldable pub applied_bonus : Rules → F → ℕ → F
  applied_bonus rules base points =
      fl.round_to
        (larger fl (fl.decimal 0 0) (
          smaller fl (smaller fl (fl.decimal points 2) (fl.decimal rules.bonus_max_points 2))
            (fl.sub (fl.decimal 100 0) base)))
        2

  start_sums : Sums F
  start_sums = record {
    general_sum = fl.decimal 0 0;
    general_max = fl.decimal 0 0;
    specialized_sum = fl.decimal 0 0;
    specialized_max = fl.decimal 0 0;
  }

  result_with : Rules → F → F → F → F → Option String → Option (Computed F)
  result_with rules g s base bonus none = none
  result_with rules g s base bonus (some label) = some (record {
    general_score_pct = g;
    specialized_score_pct = s;
    base_weighted_pct = base;
    bonus_points = bonus;
    final_weighted_pct = fl.round_to (fl.add base bonus) 1;
    recommendation = label;
    scheme_version = rules.version;
  })

  -- What follows the loop.
  unfoldable pub result_of : Rules → ℕ → Sums F → Option (Computed F)
  unfolding result_with section_pct
  result_of rules points sums =
      let g = section_pct sums.general_sum sums.general_max in
      let s = section_pct sums.specialized_sum sums.specialized_max in
      let base = base_pct rules g s in
      let bonus = applied_bonus rules base points in
      result_with rules g s base bonus
        (recommendation_for rules (fl.round_to (fl.add base bonus) 1))

  -- `compute_result`, the bonus in hundredths of points.
  unfoldable pub compute_result : List Score → List Indicator → Rules → ℕ → Option (Computed F)
  unfolding start_sums
  compute_result scores indicators rules points =
      elim (sum_rows rules indicators scores start_sums) [
        | none ↦ none
        | some sums ↦ result_of rules points sums
      ]
