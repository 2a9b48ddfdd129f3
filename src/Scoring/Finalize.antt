-- ===== src/Scoring/Finalize.antt =====
-- backend/app/services/workflow.py: `finalize_scoring`, which checks the scores of a record and
-- computes its result.
use nafas_hr.Prelude.{
  ℕ, ◌==◌, Bool, true, ◌&&◌, not, Option, none, some, List, [], ◌∷◌, elem, select, is_some,
}
use nafas_hr.Model.Values.{
  Env, Detail, Json, null, num, text, http, incomplete_scores, evidence_invalid, internal_error,
}
use nafas_hr.Model.Evaluation.{Evaluation, Score}
use nafas_hr.Model.Tables.{CurrentUser, Indicator}
use nafas_hr.Model.Store.{Db, Case}
use nafas_hr.Web.{Exec, or_raise, raise_if, modify, gets, ◌>>=◌, ◌>>◌}
use nafas_hr.Audit.{log_event}
use nafas_hr.Framework.{indicators_for_record}
use nafas_hr.Scheme.{rules_for_record}
use nafas_hr.Scoring.Floats.{FloatOps}
use nafas_hr.Scoring.Evidence.{validate_evidence}
use nafas_hr.Scoring.Compute.{Computed, compute_result}

-- `scores_as_dicts`: the rows of the record.
unfoldable pub scores_of : Evaluation → Db → List Score
scores_of r db = select (λ s. s.evaluation_record_id == r.id) db.scores

abbrev pub scored_ids : List Score → List ℕ
scored_ids [] = []
scored_ids (s ∷ ss) = s.indicator_id ∷ scored_ids ss

abbrev pub indicator_ids : List Indicator → List ℕ
indicator_ids [] = []
indicator_ids (i ∷ is) = i.id ∷ indicator_ids is

abbrev pub subset : List ℕ → List ℕ → Bool
subset [] ms = true
subset (n ∷ ns) ms = elem n ms && subset ns ms

-- Equality of the two sets of ids.
unfoldable pub same_set : List ℕ → List ℕ → Bool
same_set ns ms = subset ns ms && subset ms ns

abbrev points_or_zero : Option ℕ → ℕ
points_or_zero none = 0
points_or_zero (some p) = p

abbrev version_json : Option ℕ → Json
version_json none = null
version_json (some v) = num v

module _ {F : Type 0} (fl : FloatOps F) where
  -- The result as the log keeps it.
  result_detail : Computed F → Detail
  result_detail x =
      ("general_score_pct", num (fl.hundredths x.general_score_pct))
      ∷ ("specialized_score_pct", num (fl.hundredths x.specialized_score_pct))
      ∷ ("base_weighted_pct", num (fl.hundredths x.base_weighted_pct))
      ∷ ("bonus_points", num (fl.hundredths x.bonus_points))
      ∷ ("final_weighted_pct", num (fl.hundredths x.final_weighted_pct))
      ∷ ("recommendation", text x.recommendation)
      ∷ ("scheme_version", version_json x.scheme_version)
      ∷ []

  -- The columns of the record that take the result.
  unfoldable pub put_result : Computed F → Evaluation → Evaluation
  put_result x r = record r {
    base_weighted_pct = some (fl.hundredths x.base_weighted_pct);
    general_score_pct = some (fl.hundredths x.general_score_pct);
    specialized_score_pct = some (fl.hundredths x.specialized_score_pct);
    final_weighted_pct = some (fl.hundredths x.final_weighted_pct);
    recommendation = some x.recommendation;
  }

  store_result : Env → CurrentUser → Computed F → Case → Case
  unfolding result_detail
  store_result env user x c = record c {
    record_ = put_result x c.record_;
    db =
        log_event env user.id "score_submitted" (some c.record_.id) none (some (result_detail x))
          c.db;
  }

  -- `compute_result` with the scores, the indicators and the rules of the record itself.
  unfoldable pub result_of_record : Case → Option (Computed F)
  result_of_record c =
      compute_result fl (scores_of c.record_ c.db) (indicators_for_record c.db c.record_)
        (rules_for_record c.db c.record_) (points_or_zero c.record_.bonus_points)

  unfoldable pub is_complete : Case → Bool
  is_complete c =
      same_set (scored_ids (scores_of c.record_ c.db))
        (indicator_ids (indicators_for_record c.db c.record_))

  -- `finalize_scoring`.
  unfoldable pub finalize_scoring : Env → CurrentUser → Exec Case (Unit {0})
  unfolding store_result
  finalize_scoring env user = do
    raise_if (not (← gets is_complete)) (http 400 incomplete_scores)
    faults ←
        gets (λ c. validate_evidence (rules_for_record c.db c.record_) (scores_of c.record_ c.db))
    raise_if (is_some faults) (http 400 evidence_invalid)
    x ← or_raise (← gets result_of_record) (http 500 internal_error)
    modify (store_result env user x)
