-- ===== src/Samples.antt =====
-- A small company for the tests: one person who is evaluated, and one user for each role.
use nafas_hr.Prelude.{
  ℕ, ◌+◌, ◌-◌, ◌*◌, ◌/◌, ◌^◌, ◌==◌, true, false, Option, none, some, List, [], ◌∷◌, ltb,
}
use nafas_hr.Model.Enums.{
  active, UserRole, unit_supervisor, hr, deputy, ceo, employee, general, EvaluationStatus, email,
}
use nafas_hr.Model.Values.{AuditFields, Env, Result, ok, err}
use nafas_hr.Model.Evaluation.{Evaluation, Score}
use nafas_hr.Model.Tables.{User, CurrentUser, Personnel, EvaluationAccess, IndicatorFramework}
use nafas_hr.Model.Store.{Db, Case}
use nafas_hr.Scoring.Floats.{FloatOps}

-- A digest in place of SHA-256.
abbrev pub weak_digest : AuditFields → ℕ
weak_digest f = f.prev_hash * 2 + f.actor_user_id + 1

abbrev pub monday : Env
monday = record { now = 1000; today = 10; token = 77; digest = weak_digest; channels = email ∷ [] }

-- Numbers of thousandths in place of floats.
abbrev pub thousandths : FloatOps ℕ
thousandths = record {
  decimal = λ n k. n * 1000 / (10 ^ k);
  add = λ a b. a + b;
  sub = λ a b. a - b;
  mul = λ a b. a * b / 1000;
  div = λ a b. a * 1000 / b;
  lt = λ a b. ltb a b;
  is_zero = λ a. a == 0;
  round_to = λ a k. a / (10 ^ (3 - k)) * (10 ^ (3 - k));
  hundredths = λ a. a / 10;
}

abbrev pub account : ℕ → UserRole → Option ℕ → User
account id role personnel_id = record {
  id = id;
  personnel_id = personnel_id;
  username = "someone";
  password_hash = "hash";
  role = role;
  is_active = true;
  must_change_password = false;
  token_version = 0;
  email = some "someone@example.com";
  phone = none;
  notify_by_email = true;
  notify_by_sms = false;
}

abbrev pub as_user : ℕ → UserRole → CurrentUser
as_user id role = record { id = id; role = role; personnel_id = none }

abbrev pub supervisor_user : CurrentUser
supervisor_user = as_user 2 unit_supervisor

abbrev pub hr_user : CurrentUser
hr_user = as_user 3 hr

abbrev pub deputy_user : CurrentUser
deputy_user = as_user 4 deputy

abbrev pub ceo_user : CurrentUser
ceo_user = as_user 5 ceo

abbrev pub worker : Personnel
worker = record {
  id = 1;
  personnel_code = "P-1";
  full_name = "Worker";
  job_title = "Clerk";
  is_manager = false;
  org_unit = "Office";
  contract_start_date = 1;
  contract_end_date = 400;
  status = active;
  separation_date = none;
}

abbrev pub worker_access : EvaluationAccess
worker_access = record {
  personnel_id = 1;
  unit_supervisor_user_id = some 2;
  deputy_user_id = some 4;
  ceo_user_id = 5;
}

abbrev pub only_framework : IndicatorFramework
only_framework = record {
  id = 20;
  version = 1;
  member_ids = 11 ∷ [];
  change_kind = "seed";
  change_note = none;
  created_by_user_id = none;
}

-- The record of the worker at a stage, with a result where `pct` is one.
abbrev pub record_at : EvaluationStatus → Option ℕ → Evaluation
record_at status pct = record {
  id = 30;
  evaluation_code = 1;
  verify_token = none;
  subject_personnel_id = 1;
  unit_supervisor_user_id = some 2;
  deputy_user_id = some 4;
  ceo_user_id = 5;
  hr_user_id = some 3;
  period_id = none;
  scoring_scheme_id = none;
  indicator_framework_id = some 20;
  status = status;
  base_weighted_pct = pct;
  general_score_pct = pct;
  specialized_score_pct = pct;
  final_weighted_pct = pct;
  recommendation = none;
  bonus_points = none;
  bonus_reason = none;
  evaluator_comment = none;
  final_snapshot = none;
  stage_entered_at = 900;
  finalized_at = none;
  self_assessment_submitted_at = none;
  subject_contract_start_date = some 1;
  subject_contract_end_date = some 400;
  submission_extended_until = none;
  submission_extended_at = none;
  submission_extended_by_user_id = none;
  submission_extension_reason = none;
  acknowledged_at = none;
  acknowledged_by_user_id = none;
  objection_at = none;
  objection_reason = none;
  objection_resolved_at = none;
  objection_resolution = none;
  objection_resolved_by_user_id = none;
}

abbrev pub one_score : Score
one_score = record { evaluation_record_id = 30; indicator_id = 11; score = 3; evidence_text = none }

-- The tables, with the records given.
abbrev pub company : List Evaluation → Db
company evaluations = record {
  users =
      account 2 unit_supervisor none
      ∷ account 3 hr none
      ∷ account 4 deputy none
      ∷ account 5 ceo none
      ∷ account 6 employee (some 1)
      ∷ [];
  personnel = worker ∷ [];
  accesses = worker_access ∷ [];
  periods = [];
  schemes = [];
  capabilities = [];
  indicators = record { id = 11; section = general; is_active = true } ∷ [];
  frameworks = only_framework ∷ [];
  assessments = [];
  assessment_scores = [];
  modules = [];
  evaluations = evaluations;
  scores = one_score ∷ [];
  comments = [];
  audit_log = [];
  notifications = [];
  deliveries = [];
  login_attempts = [];
  auth_sessions = [];
  next_id = 100;
  evaluation_code_seq = 2;
}

-- The case of the worker at a stage, with the result where it is scored.
abbrev pub case_at : EvaluationStatus → Option ℕ → Case
case_at status pct = record {
  record_ = record_at status pct;
  db = company (record_at status pct ∷ []);
}

-- The state that an answered request leaves.
abbrev pub state_after : Case → Result (Unit {0} × Case) → Case
state_after c (ok (u, c')) = c'
state_after c (err e) = c
