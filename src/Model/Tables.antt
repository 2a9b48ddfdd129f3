-- ===== src/Model/Tables.antt =====
-- The other tables that the modelled code reads or writes: backend/app/models/user.py,
-- personnel.py, evaluation_access.py, evaluation_period.py, scoring_scheme.py,
-- indicator_framework.py, contract_self_assessment.py, notification.py, notification_delivery.py,
-- audit_log.py, module.py, capability.py, login_attempt.py and auth_session.py, and `CurrentUser` of
-- backend/app/schemas/auth.py.
use nafas_hr.Prelude.{ℕ, Bool, Option, List, String}
use nafas_hr.Model.Enums.{
  PersonnelStatus, UserRole, IndicatorSection, PeriodStatus, SchemeStatus, Capability,
  DeliveryChannel, DeliveryStatus, Action, EvaluationStatus,
}
use nafas_hr.Model.Values.{Detail}

pub record User : Type 0 where
  pub id : ℕ
  pub personnel_id : Option ℕ
  pub username : String
  pub password_hash : String
  pub role : UserRole
  pub is_active : Bool
  pub must_change_password : Bool
  pub token_version : ℕ
  pub email : Option String
  pub phone : Option String
  pub notify_by_email : Bool
  pub notify_by_sms : Bool

-- The user behind a request.
pub record CurrentUser : Type 0 where
  pub id : ℕ
  pub role : UserRole
  pub personnel_id : Option ℕ

pub record Personnel : Type 0 where
  pub id : ℕ
  pub personnel_code : String
  pub full_name : String
  pub job_title : String
  pub is_manager : Bool
  pub org_unit : String
  pub contract_start_date : ℕ
  pub contract_end_date : ℕ
  pub status : PersonnelStatus
  pub separation_date : Option ℕ

pub record EvaluationAccess : Type 0 where
  pub personnel_id : ℕ
  pub unit_supervisor_user_id : Option ℕ
  pub deputy_user_id : Option ℕ
  pub ceo_user_id : ℕ

pub record EvaluationPeriod : Type 0 where
  pub id : ℕ
  pub name : String
  pub starts_on : ℕ
  pub ends_on : ℕ
  pub status : PeriodStatus
  pub created_by_user_id : Option ℕ
  pub closed_at : Option ℕ

-- `UserCapability`, without who granted it and when.
pub record UserCapability : Type 0 where
  pub user_id : ℕ
  pub capability : Capability

-- Weights are in thousandths, points and percentages in hundredths, as the Numeric columns are.
pub record ScoringScheme : Type 0 where
  pub id : ℕ
  pub version : ℕ
  pub name : String
  pub status : SchemeStatus
  pub general_section_weight : ℕ
  pub specialized_section_weight : ℕ
  pub evidence_required_scores : List ℕ
  pub evidence_min_words : ℕ
  pub evidence_max_words : ℕ
  pub bonus_max_points : ℕ
  pub improvement_plan_max_pct : ℕ
  pub thresholds : List (ℕ × String)
  pub indicator_weights : List (ℕ × ℕ)
  pub created_by_user_id : Option ℕ
  pub activated_by_user_id : Option ℕ
  pub activated_at : Option ℕ
  pub retired_at : Option ℕ

pub record Indicator : Type 0 where
  pub id : ℕ
  pub section : IndicatorSection
  pub is_active : Bool

pub record IndicatorFramework : Type 0 where
  pub id : ℕ
  pub version : ℕ
  pub member_ids : List ℕ
  pub change_kind : String
  pub change_note : Option String
  pub created_by_user_id : Option ℕ

pub record ContractSelfAssessment : Type 0 where
  pub id : ℕ
  pub personnel_id : ℕ
  pub contract_start_date : ℕ
  pub contract_end_date : ℕ
  pub indicator_framework_id : ℕ
  pub submitted_by_user_id : Option ℕ
  pub submitted_at : Option ℕ
  pub note : Option String
  pub invited_at : Option ℕ
  pub invited_by_user_id : Option ℕ

pub record ContractSelfAssessmentScore : Type 0 where
  pub contract_self_assessment_id : ℕ
  pub indicator_id : ℕ
  pub score : ℕ
  pub note : Option String

-- The types of notification that the modelled code sends; `workflow_{action}` is one constructor.
pub data NotificationType : Type 0 where
  workflow : Action → NotificationType
  workflow_reassigned evaluation_finalized_self submission_window_extended : NotificationType
  evaluation_objection_resolved comment_reply_added account_locked : NotificationType
  sla_reminder contract_expiry improvement_review_due orphaned_case : NotificationType
  bulk_evaluations_assigned self_assessment_invited self_assessment_submitted : NotificationType
  evaluation_objection_filed evaluation_acknowledged period_opened : NotificationType

-- The keys that repeated notifications are known by, one constructor for each shape of the text.
pub data DedupKey : Type 0 where
  lockout : String → ℕ → DedupKey
  expiry_of : ℕ → DedupKey
  stalled_at orphaned_at : ℕ → EvaluationStatus → DedupKey

pub record Notification : Type 0 where
  pub id : ℕ
  pub user_id : ℕ
  pub type_ : NotificationType
  pub evaluation_record_id : Option ℕ
  pub dedup_key : Option DedupKey
  pub created_at : ℕ

pub record NotificationDelivery : Type 0 where
  pub id : ℕ
  pub notification_id : ℕ
  pub channel : DeliveryChannel
  pub recipient : String
  pub status : DeliveryStatus
  pub attempts : ℕ
  pub last_attempt_at : Option ℕ
  pub last_error : Option String
  pub sent_at : Option ℕ

pub record AuditLog : Type 0 where
  pub id : ℕ
  pub actor_user_id : ℕ
  pub event_type : String
  pub evaluation_record_id : Option ℕ
  pub old_value : Option Detail
  pub new_value : Option Detail
  pub prev_hash : ℕ
  pub entry_hash : ℕ

pub record ModuleSetting : Type 0 where
  pub key : String
  pub enabled : Bool

pub record LoginAttempt : Type 0 where
  pub username : String
  pub failed_count : ℕ
  pub first_failed_at : ℕ
  pub last_failed_at : ℕ
  pub locked_until : Option ℕ

-- A refresh token that was given out. The random `jti` is a number. The columns by which the user
-- knows the device, the agent and the address, are left out.
pub record AuthSession : Type 0 where
  pub id : ℕ
  pub user_id : ℕ
  pub jti : ℕ
  pub expires_at : ℕ
  pub rotated_at : Option ℕ
  pub replaced_by_jti : Option ℕ
  pub revoked_at : Option ℕ
  pub last_used_at : Option ℕ
