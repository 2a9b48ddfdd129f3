-- ===== src/Model/Evaluation.antt =====
-- backend/app/models/evaluation.py: an evaluation record, its scores and its comments. A moment is
-- a number of seconds, a date the number of its day, a percentage a number of hundredths, as in the
-- columns of type Numeric(5, 2).
use nafas_hr.Prelude.{ℕ, Bool, Option, List, String, none, some, ◌==◌, false}
use nafas_hr.Model.Enums.{EvaluationStatus, CommentStage}

-- `EvaluationScore`.
pub record Score : Type 0 where
  pub evaluation_record_id : ℕ
  pub indicator_id : ℕ
  pub score : ℕ
  pub evidence_text : Option String

-- The text of a comment: what the user wrote, behind the words that the code puts before it.
pub data CommentText : Type 0 where
  plain returned cancelled_because handed_over : String → CommentText
  reassigned : String → String → CommentText
  extended : ℕ → String → CommentText

-- `EvaluationComment`.
pub record Comment : Type 0 where
  pub id : ℕ
  pub evaluation_record_id : ℕ
  pub commenter_user_id : ℕ
  pub parent_comment_id : Option ℕ
  pub stage : CommentStage
  pub comment_text : CommentText

-- The columns of a final snapshot that the code copies from the record, the scores and comments.
pub record Snapshot : Type 0 where
  pub full_name : String
  pub personnel_code : String
  pub job_title : String
  pub org_unit : String
  pub evaluator_user_id : Option ℕ
  pub single_decider : Bool
  pub evaluation_code : ℕ
  pub general_score_pct : Option ℕ
  pub specialized_score_pct : Option ℕ
  pub final_weighted_pct : Option ℕ
  pub base_weighted_pct : Option ℕ
  pub bonus_points : Option ℕ
  pub bonus_reason : Option String
  pub recommendation : Option String
  pub evaluator_comment : Option String
  pub scores : List Score
  pub comments : List Comment
  pub finalized_at : Option ℕ

-- `EvaluationRecord`.
pub record Evaluation : Type 0 where
  pub id : ℕ
  pub evaluation_code : ℕ
  pub verify_token : Option ℕ
  pub subject_personnel_id : ℕ
  pub unit_supervisor_user_id : Option ℕ
  pub deputy_user_id : Option ℕ
  pub ceo_user_id : ℕ
  pub hr_user_id : Option ℕ
  pub period_id : Option ℕ
  pub scoring_scheme_id : Option ℕ
  pub indicator_framework_id : Option ℕ
  pub status : EvaluationStatus
  pub base_weighted_pct : Option ℕ
  pub general_score_pct : Option ℕ
  pub specialized_score_pct : Option ℕ
  pub final_weighted_pct : Option ℕ
  pub recommendation : Option String
  pub bonus_points : Option ℕ
  pub bonus_reason : Option String
  pub evaluator_comment : Option String
  pub final_snapshot : Option Snapshot
  pub stage_entered_at : ℕ
  pub finalized_at : Option ℕ
  pub self_assessment_submitted_at : Option ℕ
  pub subject_contract_start_date : Option ℕ
  pub subject_contract_end_date : Option ℕ
  pub submission_extended_until : Option ℕ
  pub submission_extended_at : Option ℕ
  pub submission_extended_by_user_id : Option ℕ
  pub submission_extension_reason : Option String
  pub acknowledged_at : Option ℕ
  pub acknowledged_by_user_id : Option ℕ
  pub objection_at : Option ℕ
  pub objection_reason : Option String
  pub objection_resolved_at : Option ℕ
  pub objection_resolution : Option String
  pub objection_resolved_by_user_id : Option ℕ

-- The property `single_decider`: the first scorer is also the one who finalizes.
unfoldable pub single_decider : Evaluation → Bool
single_decider r = elim r.unit_supervisor_user_id [ none ↦ false | some u ↦ u == r.ceo_user_id ]
