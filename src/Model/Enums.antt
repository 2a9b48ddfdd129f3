-- ===== src/Model/Enums.antt =====
-- backend/app/models/enums.py: the enumerations, with the texts that they store, and the tests
-- that the code makes on them.
use nafas_hr.Prelude.{Bool, true, false, String}

pub data PersonnelStatus : Type 0 where
  active inactive : PersonnelStatus

pub data UserRole : Type 0 where
  unit_supervisor hr deputy ceo employee support : UserRole

pub data IndicatorSection : Type 0 where
  general specialized : IndicatorSection

pub data EvaluationStatus : Type 0 where
  draft submitted hr_approved deputy_approved finalized cancelled : EvaluationStatus

pub data CommentStage : Type 0 where
  hr_review deputy_review ceo_final : CommentStage

pub data PeriodStatus : Type 0 where
  open_period closed_period : PeriodStatus

pub data SchemeStatus : Type 0 where
  draft_scheme active_scheme retired_scheme : SchemeStatus

pub data DeliveryChannel : Type 0 where
  email sms : DeliveryChannel

pub data DeliveryStatus : Type 0 where
  pending sent failed abandoned : DeliveryStatus

pub data Capability : Type 0 where
  manage_users manage_capabilities manage_scoring manage_integrations : Capability
  view_audit_log manage_modules view_diagnostics manage_personnel : Capability

-- The names of the transitions, the keys of `TRANSITIONS` in services/workflow.py.
pub data Action : Type 0 where
  submit manager_submit direct_ceo_submit : Action
  hr_approve hr_finalize_direct_ceo hr_approve_manager : Action
  deputy_approve ceo_finalize : Action
  hr_return deputy_return ceo_return ceo_return_manager cancel : Action

-- `EvaluationStatus.value`.
unfoldable pub status_value : EvaluationStatus → String
status_value draft = "draft"
status_value submitted = "submitted"
status_value hr_approved = "hr_approved"
status_value deputy_approved = "deputy_approved"
status_value finalized = "finalized"
status_value cancelled = "cancelled"

-- `CommentStage.value`.
unfoldable pub stage_value : CommentStage → String
stage_value hr_review = "hr_review"
stage_value deputy_review = "deputy_review"
stage_value ceo_final = "ceo_final"

abbrev pub is_draft : EvaluationStatus → Bool
is_draft draft = true
is_draft _ = false

abbrev pub is_submitted : EvaluationStatus → Bool
is_submitted submitted = true
is_submitted _ = false

abbrev pub is_hr_approved : EvaluationStatus → Bool
is_hr_approved hr_approved = true
is_hr_approved _ = false

abbrev pub is_deputy_approved : EvaluationStatus → Bool
is_deputy_approved deputy_approved = true
is_deputy_approved _ = false

abbrev pub is_finalized : EvaluationStatus → Bool
is_finalized finalized = true
is_finalized _ = false

-- `role is UserRole.hr`.
abbrev pub is_hr : UserRole → Bool
is_hr hr = true
is_hr _ = false

abbrev pub is_employee : UserRole → Bool
is_employee employee = true
is_employee _ = false

abbrev pub is_active_personnel : PersonnelStatus → Bool
is_active_personnel active = true
is_active_personnel inactive = false
