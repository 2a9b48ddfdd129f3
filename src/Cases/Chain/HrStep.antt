-- ===== src/Cases/Chain/HrStep.antt =====
-- backend/app/api/routers/evaluations.py: what the approval of human resources makes of a record.
use nafas_hr.Prelude.{ℕ, ◌≡◌, refl, sym, ◌∙◌, true, false, arith, if◌then◌else◌}
use nafas_hr.Model.Enums.{is_submitted, finalized, hr_finalize_direct_ceo}
use nafas_hr.Model.Values.{Env, ok, is_ok}
use nafas_hr.Model.Tables.{CurrentUser}
use nafas_hr.Model.Store.{Case}
use nafas_hr.Guards.{ensure_not_deciding_about_oneself}
use nafas_hr.Workflow.Roles.{is_direct_ceo_path}
use nafas_hr.Workflow.Table.{transition}
use nafas_hr.Workflow.Apply.{apply_transition, no_before}
use nafas_hr.Workflow.Advance.{apply_transition-Advance}
use nafas_hr.Cases.Chain.{
  hr_approve_evaluation, approve_action, require_hr, ensure_not_about_oneself, seal_record,
}
use nafas_hr.Cases.Chain.Keeps.{seal_record-KeepsStage}
use nafas_hr.Cases.Chain.Answers.{is_ready, hr_approve-is_ok}
use nafas_hr.Cases.Chain.Passing.{Passed, apply_transition-Passed, answered}
use nafas_hr.Cases.Chain.Accounts.{act_as, live, act_as-live}
use nafas_hr.Cases.Chain.Accounts.{handles}

module _ (e1 : Env) where
  -- The user of human resources approves.
  pub hr_answers :
      (h : ℕ) (c : Case)
      → is_submitted c.record_.status ≡ true
      → is_ready c ≡ true
      → live (handles c.record_) h c.db ≡ true
      → (u : CurrentUser) × (c' : Case) × (hr_approve_evaluation e1 u c ≡ ok (tt, c'))
        × (act_as (hr_approve_evaluation e1) h c ≡ ok (tt, c'))
  hr_answers h c stage ready lives =
      let a = act_as-live (hr_approve_evaluation e1) (handles c.record_) h c lives in
      let ok_ : is_ok (hr_approve_evaluation e1 a.0 c) ≡ true =
        ground (arith, hr_approve-is_ok e1 a.0 c, a.2) in
      let done = answered (hr_approve_evaluation e1 a.0 c) ok_ in
      (a.0, done.0, done.1, a.3 ∙ done.1)

  hr_went :
      (u : CurrentUser) (c c' : Case)
      → hr_approve_evaluation e1 u c ≡ ok (tt, c')
      → apply_transition e1
          (approve_action c.record_)
          u
          (if is_direct_ceo_path c.record_ then seal_record e1 else no_before)
          c
        ≡ ok (tt, c')
  unfolding hr_approve_evaluation require_hr ensure_not_about_oneself
      ensure_not_deciding_about_oneself
  hr_went u c c' h = ground arith

  -- On the path of the chief executive human resources finalize.
  pub direct_ends :
      (u : CurrentUser) (c c' : Case)
      → is_direct_ceo_path c.record_ ≡ true
      → hr_approve_evaluation e1 u c ≡ ok (tt, c')
      → c'.record_.status ≡ finalized
  unfolding approve_action transition
  direct_ends u c c' direct h =
      let went : apply_transition e1 hr_finalize_direct_ceo u (seal_record e1) c ≡ ok (tt, c') =
        sym (rw direct refl) ∙ hr_went u c c' h in
      (apply_transition-Advance e1 hr_finalize_direct_ceo u (seal_record e1) c c'
        (seal_record-KeepsStage e1) went).new_status

  -- On the others they pass the record on.
  pub hr_moves_on :
      (u : CurrentUser) (c c' : Case)
      → is_direct_ceo_path c.record_ ≡ false
      → hr_approve_evaluation e1 u c ≡ ok (tt, c')
      → Passed c c' × (c'.record_.status ≡ (transition (approve_action c.record_)).to_status)
  hr_moves_on u c c' other h =
      let went : apply_transition e1 (approve_action c.record_) u no_before c ≡ ok (tt, c') =
        sym (rw other refl) ∙ hr_went u c c' h in
      apply_transition-Passed e1 (approve_action c.record_) u c c' went
