-- ===== src/Scoring/Tests.antt =====
-- The scoring of a record with one score, and the theorems about it.
use nafas_hr.Prelude.{◌≡◌, ◌↔◌, refl, All, true, none, is_none, [], ◌∷◌}
use nafas_hr.Samples.{thousandths, monday, supervisor_user, case_at, one_score}
use nafas_hr.Model.Enums.{draft}
use nafas_hr.Model.Values.{is_ok}
use nafas_hr.Framework.{indicators_for_record, indicator_ids_for_record}
use nafas_hr.Scheme.{current_rules, active_scheme, legacy_rules, rules_for_record}
use nafas_hr.Scoring.Evidence.{validate_evidence}
use nafas_hr.Scoring.Finalize.{finalize_scoring, scores_of}
use nafas_hr.Scoring.Complete.{
  HasEvidence, SameMembers, has_thresholds, validate_evidence-is_none, finalize_scoring-is_ok,
}

evidence_example :
    is_none (validate_evidence legacy_rules (one_score ∷ [])) ≡ true
    ↔ All (HasEvidence legacy_rules) (one_score ∷ [])
evidence_example = validate_evidence-is_none legacy_rules (one_score ∷ [])

finalize_example :
    is_ok (finalize_scoring thousandths monday supervisor_user (case_at draft none)) ≡ true
    ↔ (SameMembers (11 ∷ []) (11 ∷ []) × All (HasEvidence legacy_rules) (one_score ∷ []))
unfolding scores_of indicators_for_record indicator_ids_for_record rules_for_record current_rules
    active_scheme has_thresholds
finalize_example =
    finalize_scoring-is_ok thousandths monday supervisor_user (case_at draft none) refl
