-- ===== src/Cases/Chain/Answers.antt =====
-- backend/app/api/routers/evaluations.py: for whom, and at which stage, an endpoint of the chain
-- answers.
use nafas_hr.Prelude.{
  ℕ, ◌≡◌, refl, ap, ◌∙◌, ◌==◌, Bool, true, false, not, Option, none, some, is_some, is_none,
  is_just, first, String, arith, if◌then◌else◌, ◌&&◌, ◌||◌,
}
use nafas_hr.Model.Enums.{
  UserRole, hr, deputy, ceo, is_hr, is_submitted, is_hr_approved, is_deputy_approved, Action,
  hr_finalize_direct_ceo,
}
use nafas_hr.Model.Values.{is_ok, Env, Result, ok, err}
use nafas_hr.Model.Evaluation.{Evaluation}
use nafas_hr.Model.Tables.{CurrentUser, Personnel}
use nafas_hr.Model.Store.{Case}
use nafas_hr.Web.{Exec}
use nafas_hr.Audit.{log_event}
use nafas_hr.Guards.{is_about, ensure_not_deciding_about_oneself}
use nafas_hr.Workflow.Roles.{is_manager_path, is_direct_ceo_path, may_act_at, chain_rank}
use nafas_hr.Workflow.Table.{
  ensure_transition_allowed-eq, transition, Transition, seat, holds_seat, ensure_transition_allowed,
  check_seat, allow, is_open,
}
use nafas_hr.Workflow.Apply.{apply_transition, lacks_result, has_scores, no_before, claim, set_seat}
use nafas_hr.Window.{ensure_open, record_accepts_entries}
use nafas_hr.Scoring.Floats.{FloatOps}
use nafas_hr.Scoring.Finalize.{finalize_scoring}
use nafas_hr.Cases.Snapshot.{build_final_snapshot, personnel_by_id, first_scorer}
use nafas_hr.Cases.Scores.{is_the_scorer, scoring_role}
use nafas_hr.Cases.Chain.{
  submit_evaluation, submit_action, approve_action, hr_approve_evaluation,
  deputy_approve_evaluation, ceo_finalize_evaluation, return_evaluation, cancel_evaluation,
  seal_record, explain_return, explain_cancel, require_chain_stage, require_hr,
  ensure_not_about_oneself,
}

-- `deputy_approve` is answered at the deputy's stage, for the deputy of the record, and nowhere else.
pub deputy_approve-is_ok :
    (env : Env) (user : CurrentUser) (c : Case)
    → is_ok (deputy_approve_evaluation env user c) ≡ (
        is_hr_approved c.record_.status
        && (may_act_at user.role deputy && is_just user.id c.record_.deputy_user_id))
unfolding deputy_approve_evaluation require_chain_stage apply_transition transition allow
    ensure_transition_allowed check_seat lacks_result holds_seat seat
deputy_approve-is_ok env user c = ground arith

-- `cancel` is answered for human resources while the record is open, unless the record is about the
-- user.
pub cancel-is_ok :
    (env : Env) (reason : String) (user : CurrentUser) (c : Case)
    → is_ok (cancel_evaluation env reason user c) ≡ (
        is_open c.record_.status
        && (is_hr user.role && not (is_about c.record_.subject_personnel_id user)))
unfolding cancel_evaluation require_hr ensure_not_about_oneself ensure_not_deciding_about_oneself
    apply_transition transition allow ensure_transition_allowed check_seat lacks_result holds_seat
    seat explain_cancel claim may_act_at
cancel-is_ok env reason user c = ground arith

-- The record has what a finalization asks for.
unfoldable pub is_ready : Case → Bool
is_ready c =
    is_some c.record_.final_weighted_pct
    && (has_scores c.record_ c.db && is_some (personnel_by_id c.record_.subject_personnel_id c.db))

-- `ceo_finalize` is answered for the chief executive of the record, from the deputy's approval, or
-- from that of human resources where the chain has no deputy, and only with a result, scores and the
-- personnel row.
pub ceo_finalize-is_ok :
    (env : Env) (user : CurrentUser) (c : Case)
    → is_ok (ceo_finalize_evaluation env user c) ≡ (
        (is_deputy_approved c.record_.status
          || (is_hr_approved c.record_.status && is_none c.record_.deputy_user_id))
        && (may_act_at user.role ceo && (user.id == c.record_.ceo_user_id && is_ready c)))
unfolding ceo_finalize_evaluation require_chain_stage apply_transition transition allow
    ensure_transition_allowed check_seat lacks_result holds_seat seat seal_record claim is_ready
    build_final_snapshot
ceo_finalize-is_ok env user c = ground arith

-- The transition of `hr_approve`.
approval : Env → CurrentUser → Case → Result (Unit {0} × Case)
approval env user c =
    apply_transition env (approve_action c.record_) user
      (if is_direct_ceo_path c.record_ then seal_record env else no_before) c

guarded_approval :
    (env : Env) (user : CurrentUser) (c : Case)
    → is_ok (hr_approve_evaluation env user c) ≡ (
        is_hr user.role
        && (not (is_about c.record_.subject_personnel_id user) && is_ok (approval env user c)))
unfolding hr_approve_evaluation require_hr ensure_not_about_oneself
    ensure_not_deciding_about_oneself approval
guarded_approval env user c = ground arith

-- On the path of the chief executive human resources finalize.
direct_approval-eq :
    (env : Env) (user : CurrentUser) (c : Case)
    → is_direct_ceo_path c.record_ ≡ true
    → approval env user c ≡ apply_transition env hr_finalize_direct_ceo user (seal_record env) c
unfolding approval approve_action
direct_approval-eq env user c h = rw h refl

-- A transition is answered where it is allowed, has its result and its logic is answered.
apply_by :
    (env : Env) (action : Action) (user : CurrentUser) (before : Exec Case (Unit {0})) (c : Case)
    (a : Result Transition)
    → ensure_transition_allowed c.record_ action user ≡ a
    → is_ok (apply_transition env action user before c) ≡ (
        is_ok a
        && (not (lacks_result action c) && is_ok (before (claim env (transition action) user c))))
unfolding apply_transition
apply_by env action user before c (err e) ea = ground arith
apply_by env action user before c (ok spec) ea =
    ground (arith, ensure_transition_allowed-eq c.record_ action user ea)

claim-subject :
    (env : Env) (user : CurrentUser) (c : Case)
    → ((claim env (transition hr_finalize_direct_ceo) user c).record_.subject_personnel_id
        ≡ c.record_.subject_personnel_id)
      × ((claim env (transition hr_finalize_direct_ceo) user c).db.personnel ≡ c.db.personnel)
unfolding claim transition set_seat log_event
claim-subject env user c = (ground arith, ground arith)

claim-personnel :
    (env : Env) (user : CurrentUser) (c : Case)
    → personnel_by_id
        (claim env (transition hr_finalize_direct_ceo) user c).record_.subject_personnel_id
        (claim env (transition hr_finalize_direct_ceo) user c).db
      ≡ personnel_by_id c.record_.subject_personnel_id c.db
unfolding personnel_by_id
claim-personnel env user c =
    let m = claim env (transition hr_finalize_direct_ceo) user c in
    let s = claim-subject env user c in
    ap (λ n. first (λ (p : Personnel). p.id == n) m.db.personnel) s.0
    ∙ ap (first (λ (p : Personnel). p.id == c.record_.subject_personnel_id)) s.1

seal_record-is_ok :
    (env : Env) (m : Case)
    → is_ok (seal_record env m) ≡ is_some (personnel_by_id m.record_.subject_personnel_id m.db)
unfolding seal_record build_final_snapshot
seal_record-is_ok env m = ground arith

direct_approval-is_ok :
    (env : Env) (user : CurrentUser) (c : Case)
    → is_ok (apply_transition env hr_finalize_direct_ceo user (seal_record env) c) ≡ (
        is_submitted c.record_.status
        && (is_hr user.role
            && ((is_none c.record_.hr_user_id || is_just user.id c.record_.hr_user_id)
                && (is_direct_ceo_path c.record_ && is_ready c))))
unfolding transition allow ensure_transition_allowed check_seat lacks_result holds_seat seat
    is_ready may_act_at
direct_approval-is_ok env user c =
    let m = claim env (transition hr_finalize_direct_ceo) user c in
    let a = ensure_transition_allowed c.record_ hr_finalize_direct_ceo user in
    ground (
      arith,
      apply_by env hr_finalize_direct_ceo user (seal_record env) c a refl,
      seal_record-is_ok env m,
      claim-personnel env user c,
    )

-- With the seats that decide the path named.
approval_by :
    (env : Env) (user : CurrentUser) (c : Case) (supervisor deputy_ : Option ℕ)
    → c.record_.unit_supervisor_user_id ≡ supervisor
    → c.record_.deputy_user_id ≡ deputy_
    → is_ok (approval env user c) ≡ (
        is_submitted c.record_.status
        && (is_hr user.role
            && ((is_none c.record_.hr_user_id || is_just user.id c.record_.hr_user_id)
                && (not (is_direct_ceo_path c.record_) || is_ready c))))
unfolding apply_transition transition allow ensure_transition_allowed check_seat lacks_result
    holds_seat seat seal_record claim set_seat is_ready build_final_snapshot approve_action
    is_direct_ceo_path is_manager_path may_act_at approval
approval_by env user c (some u) d hs hd = ground arith
approval_by env user c none (some v) hs hd = ground arith
approval_by env user c none none hs hd =
    ground (arith, direct_approval-eq env user c, direct_approval-is_ok env user c)

-- `hr_approve` is answered while the record is submitted, for the user of human resources who owns the
-- case or for any where none does, unless the record is about the user; on the path of the chief
-- executive, which it finalizes, only with a result, scores and the personnel row.
pub hr_approve-is_ok :
    (env : Env) (user : CurrentUser) (c : Case)
    → is_ok (hr_approve_evaluation env user c) ≡ (
        is_submitted c.record_.status
        && (is_hr user.role
            && (not (is_about c.record_.subject_personnel_id user)
                && ((is_none c.record_.hr_user_id || is_just user.id c.record_.hr_user_id)
                    && (not (is_direct_ceo_path c.record_) || is_ready c)))))
hr_approve-is_ok env user c =
    let r = c.record_ in
    ground (
      arith,
      guarded_approval env user c,
      approval_by env user c r.unit_supervisor_user_id r.deputy_user_id refl refl,
    )

-- What the transition of a return asks for, by the role of the user.
unfoldable pub may_return : UserRole → ℕ → Evaluation → Bool
may_return hr user_id r =
    is_submitted r.status && (is_none r.hr_user_id || is_just user_id r.hr_user_id)
may_return deputy user_id r =
    is_hr_approved r.status && (is_just user_id r.deputy_user_id && not (is_manager_path r))
may_return ceo user_id r = is_deputy_approved r.status && user_id == r.ceo_user_id
may_return _ user_id r = false

-- `return` is answered while the record is submitted, for the user of human resources who owns the case
-- or for any where none does; once human resources have approved it, for its deputy, where the chain
-- has a supervisor; and once the deputy's stage has approved it, for its chief executive. It is answered
-- in no other case: the chief executive cannot return a record that human resources have approved, on a
-- chain with no deputy either. Whom the record is about makes no difference: a user of human resources
-- may return the record about themselves too.
pub return-is_ok :
    (env : Env) (reason : String) (user : CurrentUser) (c : Case)
    → is_ok (return_evaluation env reason user c) ≡ may_return user.role user.id c.record_
unfolding return_evaluation may_return apply_transition transition allow ensure_transition_allowed
    check_seat lacks_result holds_seat seat explain_return claim set_seat is_manager_path may_act_at
    chain_rank
return-is_ok env reason user c = ground arith

-- `submit` is answered for the one who scores the record, while entries are accepted and where the
-- scoring can be finished: who may submit is who may save scores.
pub submit-is_ok :
    {F : Type 0} (fl : FloatOps F) (env : Env) (user : CurrentUser) (c : Case)
    → is_ok (submit_evaluation fl env user c) ≡ (
        is_the_scorer c.record_ user
        && (record_accepts_entries env c.db c.record_ && is_ok (finalize_scoring fl env user c)))
unfolding submit_evaluation require_chain_stage ensure_open record_accepts_entries submit_action
    is_the_scorer scoring_role first_scorer apply_transition transition allow
    ensure_transition_allowed check_seat lacks_result holds_seat seat claim is_direct_ceo_path
    is_manager_path may_act_at chain_rank
submit-is_ok fl env user c = ground arith
