-- ===== src/Workflow/Table.antt =====
-- backend/app/services/workflow.py: `Transition`, `TRANSITIONS` and `ensure_transition_allowed`. A
-- set of statuses is its membership test; a row that has no guard has one that always passes.
use nafas_hr.Prelude.{
  ℕ, ◌≡◌, arith, Bool, true, false, not, ◌&&◌, ◌||◌, Option, none, some, is_none, is_just,
  if◌then◌else◌,
}
use nafas_hr.Model.Enums.{
  UserRole, unit_supervisor, hr, deputy, ceo, EvaluationStatus, draft, submitted, hr_approved,
  deputy_approved, finalized, cancelled, is_draft, is_submitted, is_hr_approved, is_deputy_approved,
  Action, submit, manager_submit, direct_ceo_submit, hr_approve, hr_finalize_direct_ceo,
  hr_approve_manager, deputy_approve, ceo_finalize, hr_return, deputy_return, ceo_return,
  ceo_return_manager, cancel,
}
use nafas_hr.Model.Values.{
  Reason, not_your_stage, not_at_stage, case_of_another_hr, http, Result, ok, err,
}
use nafas_hr.Model.Evaluation.{Evaluation}
use nafas_hr.Model.Tables.{CurrentUser}
use nafas_hr.Workflow.Roles.{is_manager_path, is_direct_ceo_path, may_act_at}

-- The names of the fields that hold the seats of a record.
pub data SeatField : Type 0 where
  unit_supervisor_user_id deputy_user_id ceo_user_id hr_user_id : SeatField

-- `getattr(record, field)`.
unfoldable pub seat : SeatField → Evaluation → Option ℕ
seat unit_supervisor_user_id r = r.unit_supervisor_user_id
seat deputy_user_id r = r.deputy_user_id
seat ceo_user_id r = some r.ceo_user_id
seat hr_user_id r = r.hr_user_id

-- `OPEN_STATUSES`.
abbrev pub is_open : EvaluationStatus → Bool
is_open draft = true
is_open submitted = true
is_open hr_approved = true
is_open deputy_approved = true
is_open _ = false

pub record Transition : Type 0 where
  pub from_statuses : EvaluationStatus → Bool
  pub to_status : EvaluationStatus
  pub allowed_role : UserRole
  pub assignee_field : Option SeatField
  pub guard : Evaluation → Bool
  pub error_status : ℕ
  pub error_detail : Reason
  pub claimable_if_unassigned : Bool
  pub owner_error_detail : Option Reason

-- The fields that a row of `TRANSITIONS` leaves at their default values.
abbrev seat_transition :
    (EvaluationStatus → Bool)
    → EvaluationStatus
    → UserRole
    → SeatField
    → (Evaluation → Bool)
    → Transition
seat_transition from_statuses to_status allowed_role field guard = record {
  from_statuses = from_statuses;
  to_status = to_status;
  allowed_role = allowed_role;
  assignee_field = some field;
  guard = guard;
  error_status = 403;
  error_detail = not_your_stage;
  claimable_if_unassigned = false;
  owner_error_detail = none;
}

-- The rows of the shared queue of human resources, which the first who acts takes.
abbrev hr_transition :
    (EvaluationStatus → Bool) → EvaluationStatus → (Evaluation → Bool) → Transition
hr_transition from_statuses to_status guard = record {
  from_statuses = from_statuses;
  to_status = to_status;
  allowed_role = hr;
  assignee_field = some hr_user_id;
  guard = guard;
  error_status = 400;
  error_detail = not_at_stage;
  claimable_if_unassigned = true;
  owner_error_detail = some case_of_another_hr;
}

-- The guard of `ceo_finalize`: from `hr_approved` only where the chain has no deputy.
abbrev may_finalize : Evaluation → Bool
may_finalize r = not (is_hr_approved r.status) || is_none r.deputy_user_id

abbrev may_be_finalized : EvaluationStatus → Bool
may_be_finalized s = is_deputy_approved s || is_hr_approved s

-- `TRANSITIONS[action]`.
unfoldable pub transition : Action → Transition
unfolding is_manager_path is_direct_ceo_path
transition submit =
    seat_transition is_draft submitted unit_supervisor unit_supervisor_user_id
      (λ r. not (is_manager_path r))
transition manager_submit = seat_transition is_draft submitted deputy deputy_user_id is_manager_path
transition direct_ceo_submit = seat_transition is_draft submitted ceo ceo_user_id is_direct_ceo_path
transition hr_approve = hr_transition is_submitted hr_approved (λ r. not (is_manager_path r))
transition hr_finalize_direct_ceo = hr_transition is_submitted finalized is_direct_ceo_path
transition hr_approve_manager = hr_transition is_submitted deputy_approved is_manager_path
transition deputy_approve =
    seat_transition is_hr_approved deputy_approved deputy deputy_user_id (λ _. true)
transition ceo_finalize = seat_transition may_be_finalized finalized ceo ceo_user_id may_finalize
transition hr_return = hr_transition is_submitted draft (λ _. true)
transition deputy_return =
    seat_transition is_hr_approved submitted deputy deputy_user_id (λ _. true)
transition ceo_return =
    seat_transition is_deputy_approved hr_approved ceo ceo_user_id (λ r. not (is_manager_path r))
transition ceo_return_manager =
    seat_transition is_deputy_approved submitted ceo ceo_user_id is_manager_path
transition cancel = record {
  from_statuses = is_open;
  to_status = cancelled;
  allowed_role = hr;
  assignee_field = none;
  guard = λ _. true;
  error_status = 400;
  error_detail = not_at_stage;
  claimable_if_unassigned = false;
  owner_error_detail = none;
}

-- The test of the seat: it is the user's, or it is empty and may be taken.
unfoldable pub holds_seat : Transition → Option ℕ → ℕ → Bool
holds_seat spec assignee user_id =
    is_none assignee && spec.claimable_if_unassigned || is_just user_id assignee

-- The message for a case that is another user's.
abbrev owner_reason : Option Reason → Reason → Reason
owner_reason none r = r
owner_reason (some o) r = o

unfoldable pub check_seat : Transition → Evaluation → CurrentUser → Result Transition
check_seat spec r user = elim spec.assignee_field [
  | none ↦ ok spec
  | some field ↦
      if holds_seat spec (seat field r) user.id
      then ok spec
      else err (http 403 (owner_reason spec.owner_error_detail spec.error_detail))
]

-- `ensure_transition_allowed`, for the row `spec`.
unfoldable pub allow : Transition → Evaluation → CurrentUser → Result Transition
unfolding check_seat
allow spec r user =
    let denied = err (http spec.error_status spec.error_detail) in
    if not (spec.from_statuses r.status) || not (may_act_at user.role spec.allowed_role)
    then denied
    else if not (spec.guard r)
    then denied
    else check_seat spec r user

-- `ensure_transition_allowed`.
unfoldable pub ensure_transition_allowed : Evaluation → Action → CurrentUser → Result Transition
unfolding allow
ensure_transition_allowed r action user = allow (transition action) r user

-- The user is allowed the row itself.
allow-eq :
    (spec : Transition) (r : Evaluation) (user : CurrentUser) {spec' : Transition}
    → allow spec r user ≡ ok spec'
    → spec' ≡ spec
unfolding check_seat allow
allow-eq spec r user h = ground arith

pub ensure_transition_allowed-eq :
    (r : Evaluation) (action : Action) (user : CurrentUser) {spec : Transition}
    → ensure_transition_allowed r action user ≡ ok spec
    → spec ≡ transition action
unfolding ensure_transition_allowed
ensure_transition_allowed-eq r action user h = allow-eq (transition action) r user h

-- What the user meets who is allowed the row.
pub record Meets (spec : Transition) (r : Evaluation) (user : CurrentUser) : Type 0 where
  pub at_status : spec.from_statuses r.status ≡ true
  pub has_role : may_act_at user.role spec.allowed_role ≡ true
  pub passes : spec.guard r ≡ true
  pub has_seat :
      (f : SeatField) → spec.assignee_field ≡ some f → holds_seat spec (seat f r) user.id ≡ true

allow-Meets :
    (spec : Transition) (r : Evaluation) (user : CurrentUser) {spec' : Transition}
    → allow spec r user ≡ ok spec'
    → Meets spec r user
unfolding allow
allow-Meets spec r user h = record {
  at_status = ground arith;
  has_role = ground arith;
  passes = ground arith;
  has_seat = λ f e. ground arith;
}

pub ensure_transition_allowed-Meets :
    (r : Evaluation) (action : Action) (user : CurrentUser) {spec : Transition}
    → ensure_transition_allowed r action user ≡ ok spec
    → Meets (transition action) r user
unfolding ensure_transition_allowed
ensure_transition_allowed-Meets r action user h = allow-Meets (transition action) r user h
