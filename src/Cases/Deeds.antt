-- ===== src/Cases/Deeds.antt =====
-- backend/app/api/routers/evaluations.py: all the requests that change one evaluation record, as one
-- type, with the endpoint that answers each.
pub mod Beside
pub mod Closed
pub mod Sealing
pub mod Reach
mod Tests
use nafas_hr.Prelude.{ℕ, Option, List, String}
use nafas_hr.Model.Values.{Env}
use nafas_hr.Model.Tables.{CurrentUser}
use nafas_hr.Model.Store.{Case}
use nafas_hr.Web.{Exec}
use nafas_hr.Scoring.Floats.{FloatOps}
use nafas_hr.Cases.Scores.{ScoreItem, upsert_scores, set_evaluator_comment, set_special_score}
use nafas_hr.Cases.Comments.{add_comment}
use nafas_hr.Cases.Owners.{
  StageField, extend_submission_window, hr_claim, hr_handover, resolve_objection,
  reassign_stage_owner,
}
use nafas_hr.Cases.Chain.Moves.{Call, run_call}

-- A request beside the chain, with what it carries.
pub data Deed : Type 0 where
  save_scores : List ScoreItem → Deed
  save_comment : Option String → Deed
  save_bonus : ℕ → Option String → Deed
  comment : Option ℕ → String → Deed
  extend : ℕ → String → Deed
  claim_case : Deed
  hand_over : ℕ → String → Deed
  resolve : String → Deed
  reassign : StageField → ℕ → String → Deed

-- The endpoint of a deed.
unfoldable pub run_deed : Env → CurrentUser → Deed → Exec Case (Unit {0})
run_deed env user (save_scores items) = upsert_scores env items user
run_deed env user (save_comment words) = set_evaluator_comment env words user
run_deed env user (save_bonus points reason) = set_special_score env points reason user
run_deed env user (comment parent words) = add_comment env parent words user
run_deed env user (extend until reason) = extend_submission_window env until reason user
run_deed env user claim_case = hr_claim env user
run_deed env user (hand_over owner reason) = hr_handover env owner reason user
run_deed env user (resolve words) = resolve_objection env words user
run_deed env user (reassign field owner reason) = reassign_stage_owner env field owner reason user
