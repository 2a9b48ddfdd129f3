-- ===== src/Model/Store.antt =====
-- The database as one request sees it: the tables, newest row first where the code reads the
-- newest, and the sequences that number new rows.
use nafas_hr.Prelude.{ℕ, List}
use nafas_hr.Model.Evaluation.{Evaluation, Score, Comment}
use nafas_hr.Model.Tables.{
  User, Personnel, EvaluationAccess, EvaluationPeriod, ScoringScheme, UserCapability, Indicator,
  IndicatorFramework, ContractSelfAssessment, ContractSelfAssessmentScore, Notification,
  NotificationDelivery, AuditLog, ModuleSetting, LoginAttempt, AuthSession,
}

pub record Db : Type 0 where
  pub users : List User
  pub personnel : List Personnel
  pub accesses : List EvaluationAccess
  pub periods : List EvaluationPeriod
  pub schemes : List ScoringScheme
  pub capabilities : List UserCapability
  pub indicators : List Indicator
  pub frameworks : List IndicatorFramework
  pub assessments : List ContractSelfAssessment
  pub assessment_scores : List ContractSelfAssessmentScore
  pub modules : List ModuleSetting
  pub evaluations : List Evaluation
  pub scores : List Score
  pub comments : List Comment
  pub audit_log : List AuditLog
  pub notifications : List Notification
  pub deliveries : List NotificationDelivery
  pub login_attempts : List LoginAttempt
  pub auth_sessions : List AuthSession
  pub next_id : ℕ
  pub evaluation_code_seq : ℕ

-- The state of a request that works on one evaluation record: the record, which is locked for the
-- time of the request, and the tables. The row of the record is written back when it ends.
pub record Case : Type 0 where
  pub record_ : Evaluation
  pub db : Db
