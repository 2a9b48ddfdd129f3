-- ===== src/Model/Values.antt =====
-- The values of the JSON columns of the audit log, the answers to a request, and what a request
-- reads from outside: the clock, the settings, the hash function, and fresh random texts.
use nafas_hr.Prelude.{ℕ, Bool, true, false, Option, List, String}
use nafas_hr.Model.Enums.{DeliveryChannel}

-- A JSON value of the audit log. A date is the number of its day, `counts` an object of numbers.
pub data Json : Type 0 where
  null : Json
  num : ℕ → Json
  day : ℕ → Json
  text : String → Json
  flag : Bool → Json
  counts : List (String × ℕ) → Json

-- A JSON object, by its keys.
abbrev pub Detail : Type 0
Detail = List (String × Json)

-- The dict whose JSON text `_canonical` of services/audit.py gives.
pub record AuditFields : Type 0 where
  pub actor_user_id : ℕ
  pub event_type : String
  pub evaluation_record_id : Option ℕ
  pub old_value : Option Detail
  pub new_value : Option Detail
  pub prev_hash : ℕ

-- What a request reads from outside the database. The clock is read once in a request. `digest` is
-- SHA-256 after `json.dumps` with sorted keys, a hexadecimal text being the number that it writes.
pub record Env : Type 0 where
  pub now : ℕ
  pub today : ℕ
  pub token : ℕ
  pub digest : AuditFields → ℕ
  pub channels : List DeliveryChannel

-- The answers that the code raises, one for each message.
pub data Reason : Type 0 where
  not_found : Reason
  not_your_stage not_at_stage case_of_another_hr no_result : Reason
  deciding_about_oneself no_access forbidden : Reason
  window_closed incomplete_scores evidence_invalid bonus_invalid : Reason
  foreign_indicator duplicate_indicator : Reason
  inactive_personnel no_access_row inactive_seats no_supervisor open_case_exists : Reason
  no_previous_stage not_extendable not_open already_owned invalid_owner : Reason
  no_such_stage invalid_user wrong_role redundant_stage evaluator_is_subject : Reason
  no_objection objection_resolved : Reason
  comment_not_allowed parent_not_found reply_to_reply : Reason
  account_is_locked bad_credentials inactive_account bad_token session_not_found : Reason
  wrong_password same_password password_has_username password_must_change : Reason
  no_account_of_person role_not_assessed contract_not_open assessment_submitted : Reason
  module_off not_finalized already_acknowledged not_acknowledged : Reason
  already_objected objection_too_late : Reason
  scheme_not_valid scheme_not_draft : Reason
  period_still_open dates_out_of_order period_has_records period_already_closed : Reason
  period_has_open_records : Reason
  creator_may_not_activate snapshot_without_personnel internal_error : Reason

-- `http status reason` is a raised HTTPException, or an uncaught error as the server answers it.
pub data Error : Type 0 where
  http : ℕ → Reason → Error

pub data Result {ℓ} (A : Type ℓ) : Type ℓ where
  ok : A → Result A
  err : Error → Result A

-- The request is answered.
abbrev pub is_ok {ℓ} : {A : Type ℓ} → Result A → Bool
is_ok (ok _) = true
is_ok (err _) = false
