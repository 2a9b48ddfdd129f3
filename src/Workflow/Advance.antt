-- ===== src/Workflow/Advance.antt =====
-- backend/app/services/workflow.py: what a transition does to the record, whatever the endpoint does
-- in between, as long as that leaves the seats and the status alone.
use nafas_hr.Prelude.{◌≡◌, refl, ap, ◌∙◌, false, some, arith, is_none, ◌&&◌, if◌then◌else◌}
use nafas_hr.Model.Enums.{
  Action, submit, manager_submit, direct_ceo_submit, hr_approve, hr_finalize_direct_ceo,
  hr_approve_manager, deputy_approve, ceo_finalize, hr_return, deputy_return, ceo_return,
  ceo_return_manager, cancel,
}
use nafas_hr.Model.Values.{Env, ok}
use nafas_hr.Model.Evaluation.{Evaluation}
use nafas_hr.Model.Tables.{CurrentUser}
use nafas_hr.Model.Store.{Case}
use nafas_hr.Web.{Exec}
use nafas_hr.Workflow.Table.{transition, Meets, ensure_transition_allowed-Meets}
use nafas_hr.Workflow.Apply.{claim, set_seat, move, finish, apply_transition, lacks_result}
use nafas_hr.Workflow.Effects.{Went, apply_transition-Went}

-- Two states of one record with the same seats.
pub record SameSeats (r r' : Evaluation) : Type 0 where
  pub same_id : r'.id ≡ r.id
  pub same_subject : r'.subject_personnel_id ≡ r.subject_personnel_id
  pub same_supervisor : r'.unit_supervisor_user_id ≡ r.unit_supervisor_user_id
  pub same_deputy : r'.deputy_user_id ≡ r.deputy_user_id
  pub same_ceo : r'.ceo_user_id ≡ r.ceo_user_id

-- A step that leaves the seats, the owner and the status alone.
pub record KeepsStage (r r' : Evaluation) : Type 0 where
  pub seats : SameSeats r r'
  pub same_owner : r'.hr_user_id ≡ r.hr_user_id
  pub same_status : r'.status ≡ r.status

pub KeepsStage-refl : (r : Evaluation) → KeepsStage r r
KeepsStage-refl r = ground arith

pub KeepsStage-trans : (r s t : Evaluation) → KeepsStage r s → KeepsStage s t → KeepsStage r t
KeepsStage-trans r s t h k = ground arith

-- `claim` gives a seat of human resources, and no other.
pub claim-record :
    (env : Env) (action : Action) (user : CurrentUser) (c : Case)
    → (claim env (transition action) user c).record_ ≡ record c.record_ {
      hr_user_id =
          if (transition action).claimable_if_unassigned && is_none c.record_.hr_user_id
          then some user.id
          else c.record_.hr_user_id;
    }
unfolding claim transition set_seat
claim-record env submit user c = ground arith
claim-record env manager_submit user c = ground arith
claim-record env direct_ceo_submit user c = ground arith
claim-record env hr_approve user c = ground arith
claim-record env hr_finalize_direct_ceo user c = ground arith
claim-record env hr_approve_manager user c = ground arith
claim-record env deputy_approve user c = ground arith
claim-record env ceo_finalize user c = ground arith
claim-record env hr_return user c = ground arith
claim-record env deputy_return user c = ground arith
claim-record env ceo_return user c = ground arith
claim-record env ceo_return_manager user c = ground arith
claim-record env cancel user c = ground arith

-- What a transition has done to the record of a case.
pub record Advance (action : Action) (user : CurrentUser) (c c' : Case) : Type 0 where
  pub meets : Meets (transition action) c.record_ user
  pub has_result : lacks_result action c ≡ false
  pub seats : SameSeats c.record_ c'.record_
  pub new_status : c'.record_.status ≡ (transition action).to_status
  pub owner : c'.record_.hr_user_id ≡ (
      if (transition action).claimable_if_unassigned && is_none c.record_.hr_user_id
      then some user.id
      else c.record_.hr_user_id)

module _ (env : Env) (action : Action) (user : CurrentUser) where
  finish-status :
      (m : Case)
      → ((finish env action user m).record_.status ≡ (transition action).to_status)
        × SameSeats m.record_ (finish env action user m).record_
        × ((finish env action user m).record_.hr_user_id ≡ m.record_.hr_user_id)
  unfolding finish move
  finish-status m = (refl, ground arith, refl)

  -- The seats and the owner after the three parts of a transition.
  ended_seats :
      (c m c' : Case)
      → KeepsStage (claim env (transition action) user c).record_ m.record_
      → c' ≡ finish env action user m
      → SameSeats c.record_ c'.record_
  ended_seats c m c' k e =
      let f = (finish-status m).1 in
      let claimed = claim-record env action user c in
      let s = k.seats in
      let end = ap (λ (x : Case). x.record_) e in
      record {
        same_id = ap (λ x. x.id) end ∙ f.same_id ∙ s.same_id ∙ ap (λ x. x.id) claimed;
        same_subject =
            ap (λ x. x.subject_personnel_id) end
            ∙ f.same_subject
            ∙ s.same_subject
            ∙ ap (λ x. x.subject_personnel_id) claimed;
        same_supervisor =
            ap (λ x. x.unit_supervisor_user_id) end
            ∙ f.same_supervisor
            ∙ s.same_supervisor
            ∙ ap (λ x. x.unit_supervisor_user_id) claimed;
        same_deputy =
            ap (λ x. x.deputy_user_id) end
            ∙ f.same_deputy
            ∙ s.same_deputy
            ∙ ap (λ x. x.deputy_user_id) claimed;
        same_ceo =
            ap (λ x. x.ceo_user_id) end ∙ f.same_ceo ∙ s.same_ceo ∙ ap (λ x. x.ceo_user_id) claimed;
      }

  Went-Advance :
      (before : Exec Case (Unit {0})) (c c' : Case)
      → ((m : Case) (m' : Case) → before m ≡ ok (tt, m') → KeepsStage m.record_ m'.record_)
      → Went env action user before c c'
      → Advance action user c c'
  Went-Advance before c c' keeps w =
      let m = claim env (transition action) user c in
      let k = keeps m w.middle w.ran in
      let f = finish-status w.middle in
      record {
        meets = ensure_transition_allowed-Meets c.record_ action user w.allowed;
        has_result = w.has_result;
        seats = ended_seats c w.middle c' k w.ended;
        new_status = ap (λ (x : Case). x.record_.status) w.ended ∙ f.0;
        owner =
            ap (λ (x : Case). x.record_.hr_user_id) w.ended
            ∙ f.2
            ∙ k.same_owner
            ∙ ap (λ (x : Evaluation). x.hr_user_id) (claim-record env action user c);
      }

  pub apply_transition-Advance :
      (before : Exec Case (Unit {0})) (c c' : Case)
      → ((m : Case) (m' : Case) → before m ≡ ok (tt, m') → KeepsStage m.record_ m'.record_)
      → apply_transition env action user before c ≡ ok (tt, c')
      → Advance action user c c'
  apply_transition-Advance before c c' keeps h =
      Went-Advance before c c' keeps (apply_transition-Went env action user before c h)
