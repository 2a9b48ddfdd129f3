-- ===== src/Cases/Chain/Keeps.antt =====
-- backend/app/api/routers/evaluations.py: what the logic of an endpoint leaves of the stage of a
-- record, and what a finalization fills.
use nafas_hr.Prelude.{◌≡◌, Bool, true, is_some, String, arith, ◌&&◌}
use nafas_hr.Model.Enums.{CommentStage}
use nafas_hr.Model.Values.{Env, ok}
use nafas_hr.Model.Evaluation.{Evaluation}
use nafas_hr.Model.Tables.{CurrentUser}
use nafas_hr.Model.Store.{Case}
use nafas_hr.Workflow.Apply.{no_before}
use nafas_hr.Workflow.Advance.{KeepsStage}
use nafas_hr.Scoring.Floats.{FloatOps}
use nafas_hr.Scoring.Finalize.{finalize_scoring, put_result}
use nafas_hr.Cases.Chain.{seal_record, explain_return, explain_cancel, add_top_comment, seal}

pub no_before-KeepsStage :
    (m m' : Case) → no_before m ≡ ok (tt, m') → KeepsStage m.record_ m'.record_
no_before-KeepsStage m m' h = ground arith

pub explain_return-KeepsStage :
    (env : Env) (user : CurrentUser) (stage : CommentStage) (reason : String) (m m' : Case)
    → explain_return env user stage reason m ≡ ok (tt, m')
    → KeepsStage m.record_ m'.record_
unfolding explain_return add_top_comment
explain_return-KeepsStage env user stage reason m m' h = ground arith

pub explain_cancel-KeepsStage :
    (env : Env) (user : CurrentUser) (reason : String) (m m' : Case)
    → explain_cancel env user reason m ≡ ok (tt, m')
    → KeepsStage m.record_ m'.record_
unfolding explain_cancel add_top_comment
explain_cancel-KeepsStage env user reason m m' h = ground arith

pub seal_record-KeepsStage :
    (env : Env) (m m' : Case) → seal_record env m ≡ ok (tt, m') → KeepsStage m.record_ m'.record_
unfolding seal_record seal
seal_record-KeepsStage env m m' h = ground arith

pub finalize_scoring-KeepsStage :
    {F : Type 0} (fl : FloatOps F) (env : Env) (user : CurrentUser) (m m' : Case)
    → finalize_scoring fl env user m ≡ ok (tt, m')
    → KeepsStage m.record_ m'.record_
unfolding finalize_scoring put_result
finalize_scoring-KeepsStage fl env user m m' h = ground arith

-- The columns that a finalization fills.
unfoldable pub is_sealed : Evaluation → Bool
is_sealed r = is_some r.final_snapshot && is_some r.verify_token

-- What the logic of an endpoint that finalizes does.
pub record Seals (r r' : Evaluation) : Type 0 where
  pub filled : is_sealed r' ≡ true
  pub same_result : r'.final_weighted_pct ≡ r.final_weighted_pct

pub seal_record-Seals :
    (env : Env) (m m' : Case) → seal_record env m ≡ ok (tt, m') → Seals m.record_ m'.record_
unfolding seal_record seal is_sealed
seal_record-Seals env m m' h = ground arith
