-- ===== src/Cases/Deeds/Beside.antt =====
-- backend/app/api/routers/evaluations.py: what a request beside the chain leaves of a record.
use Prim.Native.String.{String}
use nafas_hr.Prelude.{ℕ, ◌≡◌, true, false, Option, none, some, is_some, List, arith}
use nafas_hr.Model.Enums.{is_draft}
use nafas_hr.Model.Values.{Env, ok}
use nafas_hr.Model.Evaluation.{Evaluation}
use nafas_hr.Model.Tables.{CurrentUser}
use nafas_hr.Model.Store.{Case}
use nafas_hr.Workflow.Table.{is_open, seat}
use nafas_hr.Workflow.Apply.{set_seat}
use nafas_hr.Workflow.Diagram.{path_of, path_by}
use nafas_hr.Window.{ensure_open}
use nafas_hr.Guards.{
  ensure_not_deciding_about_oneself, ensure_evaluators_are_not_the_subject,
  ensure_chain_stages_are_not_redundant,
}
use nafas_hr.Cases.Chain.{require_hr, ensure_not_about_oneself, add_top_comment}
use nafas_hr.Cases.Scores.{
  ScoreItem, upsert_scores, set_evaluator_comment, set_special_score, ensure_scorer, is_the_scorer,
  replace_scores, put_scores, put_bonus, ensure_can_view,
}
use nafas_hr.Cases.Comments.{add_comment, add_stage_comment, add_reply, put_reply}
use nafas_hr.Cases.Owners.{
  StageField, field_of, extend_submission_window, put_extension, hr_claim, hr_handover,
  resolve_objection, put_resolution, reassign_stage_owner,
}
use nafas_hr.Cases.Deeds.{
  Deed, save_scores, save_comment, save_bonus, comment, extend, claim_case, hand_over, resolve,
  reassign, run_deed,
}

-- What a finalization seals.
pub record SameSeal (r r' : Evaluation) : Type 0 where
  pub same_snapshot : r'.final_snapshot ≡ r.final_snapshot
  pub same_token : r'.verify_token ≡ r.verify_token
  pub same_finalized_at : r'.finalized_at ≡ r.finalized_at
  pub same_general : r'.general_score_pct ≡ r.general_score_pct
  pub same_specialized : r'.specialized_score_pct ≡ r.specialized_score_pct
  pub same_base : r'.base_weighted_pct ≡ r.base_weighted_pct
  pub same_final : r'.final_weighted_pct ≡ r.final_weighted_pct
  pub same_recommendation : r'.recommendation ≡ r.recommendation

-- A step beside the chain.
pub record Beside (r r' : Evaluation) : Type 0 where
  pub same_id : r'.id ≡ r.id
  pub same_subject : r'.subject_personnel_id ≡ r.subject_personnel_id
  pub same_status : r'.status ≡ r.status
  pub same_path : path_of r' ≡ path_of r
  pub keeps_owner : is_some r.hr_user_id ≡ true → is_some r'.hr_user_id ≡ true
  pub seal : SameSeal r r'
  pub same_words : is_draft r.status ≡ false → r'.evaluator_comment ≡ r.evaluator_comment
  pub same_bonus : is_draft r.status ≡ false → r'.bonus_points ≡ r.bonus_points
  pub same_seats :
      is_open r.status ≡ false → (r'.ceo_user_id ≡ r.ceo_user_id) × (r'.hr_user_id ≡ r.hr_user_id)

Beside-refl : (r : Evaluation) → Beside r r
Beside-refl r = ground arith

save_scores-Beside :
    (env : Env) (user : CurrentUser) (items : List ScoreItem) (c c' : Case)
    → upsert_scores env items user c ≡ ok (tt, c')
    → Beside c.record_ c'.record_
unfolding upsert_scores ensure_open ensure_scorer replace_scores put_scores
save_scores-Beside env user items c c' h = ground (arith, Beside-refl c.record_)

save_comment-keeps :
    (env : Env) (user : CurrentUser) (words : Option String) (c c' : Case)
    → set_evaluator_comment env words user c ≡ ok (tt, c')
    → Beside c.record_ c'.record_
unfolding set_evaluator_comment ensure_open ensure_scorer is_the_scorer path_of
save_comment-keeps env user words c c' h = ground arith

save_bonus-Beside :
    (env : Env) (user : CurrentUser) (points : ℕ) (reason : Option String) (c c' : Case)
    → set_special_score env points reason user c ≡ ok (tt, c')
    → Beside c.record_ c'.record_
unfolding set_special_score ensure_open ensure_scorer is_the_scorer put_bonus path_of
save_bonus-Beside env user points reason c c' h = ground arith

comment-keeps :
    (env : Env) (user : CurrentUser) (parent : Option ℕ) (words : String) (c c' : Case)
    → add_comment env parent words user c ≡ ok (tt, c')
    → c'.record_ ≡ c.record_
unfolding add_comment add_stage_comment add_reply ensure_can_view ensure_not_about_oneself
    ensure_not_deciding_about_oneself add_top_comment put_reply
comment-keeps env user none words c c' h = ground arith
comment-keeps env user (some parent) words c c' h = ground arith

extend-Beside :
    (env : Env) (user : CurrentUser) (until : ℕ) (reason : String) (c c' : Case)
    → extend_submission_window env until reason user c ≡ ok (tt, c')
    → Beside c.record_ c'.record_
unfolding extend_submission_window require_hr ensure_not_about_oneself
    ensure_not_deciding_about_oneself put_extension add_top_comment path_of
extend-Beside env user until reason c c' h = ground arith

claim-Beside :
    (env : Env) (user : CurrentUser) (c c' : Case)
    → hr_claim env user c ≡ ok (tt, c')
    → Beside c.record_ c'.record_
unfolding hr_claim require_hr ensure_not_about_oneself ensure_not_deciding_about_oneself path_of
claim-Beside env user c c' h = ground arith

hand_over-Beside :
    (env : Env) (user : CurrentUser) (owner : ℕ) (reason : String) (c c' : Case)
    → hr_handover env owner reason user c ≡ ok (tt, c')
    → Beside c.record_ c'.record_
unfolding hr_handover require_hr ensure_not_about_oneself ensure_not_deciding_about_oneself
    add_top_comment path_of
hand_over-Beside env user owner reason c c' h = ground arith

resolve-Beside :
    (env : Env) (user : CurrentUser) (words : String) (c c' : Case)
    → resolve_objection env words user c ≡ ok (tt, c')
    → Beside c.record_ c'.record_
unfolding resolve_objection require_hr ensure_not_about_oneself ensure_not_deciding_about_oneself
    put_resolution path_of
resolve-Beside env user words c c' h = ground arith

reassign-Beside :
    (env : Env) (user : CurrentUser) (field : StageField) (owner : ℕ) (reason : String)
    (c c' : Case)
    → reassign_stage_owner env field owner reason user c ≡ ok (tt, c')
    → Beside c.record_ c'.record_
unfolding reassign_stage_owner require_hr add_top_comment path_of path_by set_seat field_of seat
    ensure_evaluators_are_not_the_subject ensure_chain_stages_are_not_redundant
reassign-Beside env user field owner reason c c' h = ground arith

pub run_deed-Beside :
    (env : Env) (user : CurrentUser) (deed : Deed) (c c' : Case)
    → run_deed env user deed c ≡ ok (tt, c')
    → Beside c.record_ c'.record_
unfolding run_deed
run_deed-Beside env user (save_scores items) c c' h = save_scores-Beside env user items c c' h
run_deed-Beside env user (save_comment words) c c' h = save_comment-keeps env user words c c' h
run_deed-Beside env user (save_bonus points reason) c c' h =
    save_bonus-Beside env user points reason c c' h
run_deed-Beside env user (comment parent words) c c' h =
    let same = comment-keeps env user parent words c c' h in rw same (Beside-refl c.record_)
run_deed-Beside env user (extend until reason) c c' h = extend-Beside env user until reason c c' h
run_deed-Beside env user claim_case c c' h = claim-Beside env user c c' h
run_deed-Beside env user (hand_over owner reason) c c' h =
    hand_over-Beside env user owner reason c c' h
run_deed-Beside env user (resolve words) c c' h = resolve-Beside env user words c c' h
run_deed-Beside env user (reassign field owner reason) c c' h =
    reassign-Beside env user field owner reason c c' h
