-- ===== src/Cases/Deeds/Sealing.antt =====
-- backend/app/services/workflow.py and backend/app/api/routers/evaluations.py: what always holds of
-- an evaluation record, whatever requests are answered for it.
use nafas_hr.Prelude.{◌≡◌, refl, ap, ◌∙◌, sym, Bool, true, false, is_some, arith}
use nafas_hr.Model.Enums.{
  EvaluationStatus, hr_approved, deputy_approved, finalized, is_finalized, Action,
}
use nafas_hr.Model.Values.{Env, ok}
use nafas_hr.Model.Evaluation.{Evaluation}
use nafas_hr.Model.Tables.{CurrentUser}
use nafas_hr.Model.Store.{Case}
use nafas_hr.Web.{Exec}
use nafas_hr.Workflow.Table.{transition, Meets}
use nafas_hr.Workflow.Apply.{claim, move, finish, lacks_result}
use nafas_hr.Workflow.Effects.{Went, apply_transition-Went}
use nafas_hr.Workflow.Advance.{Advance, claim-record, apply_transition-Advance}
use nafas_hr.Workflow.Diagram.{path_of, on_route, Edge-on_route, SameSeats-path_of}
use nafas_hr.Scoring.Floats.{FloatOps}
use nafas_hr.Cases.Chain.Keeps.{Seals, is_sealed}
use nafas_hr.Cases.Chain.Moves.{Call, run_call, run_call-Taken, run_call-Moved}
use nafas_hr.Cases.Deeds.Beside.{Beside, run_deed-Beside}
use nafas_hr.Cases.Deeds.Closed.{Request, along, beside, run_request}

-- The stages behind the first look of human resources.
unfoldable pub passed_hr : EvaluationStatus → Bool
passed_hr hr_approved = true
passed_hr deputy_approved = true
passed_hr finalized = true
passed_hr _ = false

-- What holds of every record: its status is a stage of its path, human resources have an owner for it
-- once they have passed it on, and it is finalized only with a result, a snapshot and a token.
pub record IsSound (r : Evaluation) : Type 0 where
  pub routed : on_route (path_of r) r.status ≡ true
  pub owned : passed_hr r.status ≡ true → is_some r.hr_user_id ≡ true
  pub filled : is_finalized r.status ≡ true → is_sealed r ≡ true
  pub has_result : is_finalized r.status ≡ true → is_some r.final_weighted_pct ≡ true
  pub has_moment : is_finalized r.status ≡ true → is_some r.finalized_at ≡ true

-- A transition to a stage behind human resources starts at one, or takes the case for its user.
reaches_passed :
    (a : Action) (r : Evaluation) (user : CurrentUser)
    → Meets (transition a) r user
    → passed_hr (transition a).to_status ≡ true
    → passed_hr r.status ≡ false
    → (transition a).claimable_if_unassigned ≡ true
unfolding transition passed_hr
reaches_passed a r user m p q = ground (arith, m.at_status)

Advance-owned :
    (a : Action) (user : CurrentUser) (c c' : Case)
    → Advance a user c c'
    → IsSound c.record_
    → passed_hr c'.record_.status ≡ true
    → is_some c'.record_.hr_user_id ≡ true
Advance-owned a user c c' d s p =
    ground (arith, d.owner, d.new_status, s.owned, reaches_passed a c.record_ user d.meets)

module _ (env : Env) (action : Action) (user : CurrentUser) where
  -- The end of a transition keeps what is sealed, and finalizing sets the moment.
  finish-sealed :
      (m : Case)
      → (is_sealed (finish env action user m).record_ ≡ is_sealed m.record_)
        × ((finish env action user m).record_.final_weighted_pct ≡ m.record_.final_weighted_pct)
        × (is_finalized (transition action).to_status ≡ true
            → is_some (finish env action user m).record_.finalized_at ≡ true)
  unfolding finish move is_sealed
  finish-sealed m = (refl, refl, λ f. ground arith)

  claim-result :
      (c : Case)
      → (claim env (transition action) user c).record_.final_weighted_pct
        ≡ c.record_.final_weighted_pct
  claim-result c = ap (λ (r : Evaluation). r.final_weighted_pct) (claim-record env action user c)

  has_result_before :
      (c : Case)
      → lacks_result action c ≡ false
      → is_finalized (transition action).to_status ≡ true
      → is_some c.record_.final_weighted_pct ≡ true
  unfolding lacks_result
  has_result_before c h f = ground arith

  -- What a finalizing transition leaves behind.
  finalizing-fills :
      (before : Exec Case (Unit {0})) (c c' : Case)
      → ((m m' : Case) → before m ≡ ok (tt, m') → Seals m.record_ m'.record_)
      → is_finalized (transition action).to_status ≡ true
      → Went env action user before c c'
      → (is_sealed c'.record_ ≡ true)
        × (is_some c'.record_.final_weighted_pct ≡ true)
        × (is_some c'.record_.finalized_at ≡ true)
  finalizing-fills before c c' seals f w =
      let s = seals (claim env (transition action) user c) w.middle w.ran in
      let e = finish-sealed w.middle in
      let result = e.1 ∙ s.same_result ∙ claim-result c in
      rw w.ended ((e.0 ∙ s.filled, ap is_some result ∙ has_result_before c w.has_result f, e.2 f))

-- A record that is sound is sound after every request of the chain that is answered.
run_call-IsSound :
    {F : Type 0} (fl : FloatOps F) (env : Env) (user : CurrentUser) (call : Call) (c c' : Case)
    → IsSound c.record_
    → run_call fl env user call c ≡ ok (tt, c')
    → IsSound c'.record_
run_call-IsSound fl env user call c c' s h =
    let t = run_call-Taken fl env user call c c' h in
    let d = apply_transition-Advance env t.action user t.before c c' t.keeps t.went in
    let m = run_call-Moved fl env user call c c' s.routed h in
    let w = apply_transition-Went env t.action user t.before c t.went in
    let fills : is_finalized c'.record_.status ≡ true
        → (is_sealed c'.record_ ≡ true)
          × (is_some c'.record_.final_weighted_pct ≡ true)
          × (is_some c'.record_.finalized_at ≡ true) =
      λ f.
        let g = sym (ap is_finalized d.new_status) ∙ f in
        finalizing-fills env t.action user t.before c c' (t.seals g) g w in
    record {
      routed =
          ap (λ p. on_route p c'.record_.status) (SameSeats-path_of c.record_ c'.record_ m.seats)
          ∙ Edge-on_route m.edge;
      owned = Advance-owned t.action user c c' d s;
      filled = λ f. (fills f).0;
      has_result = λ f. (fills f).1;
      has_moment = λ f. (fills f).2;
    }

Beside-IsSound : (r r' : Evaluation) → Beside r r' → IsSound r → IsSound r'
unfolding is_sealed
Beside-IsSound r r' b s = record {
  routed =
      ap (λ p. on_route p r'.status) b.same_path
      ∙ ap (on_route (path_of r)) b.same_status
      ∙ s.routed;
  owned = λ p. b.keeps_owner (s.owned (ap passed_hr (sym b.same_status) ∙ p));
  filled = λ f. ground (arith, s.filled, b.same_status, b.seal.same_snapshot, b.seal.same_token);
  has_result = λ f. ground (arith, s.has_result, b.same_status, b.seal.same_final);
  has_moment = λ f. ground (arith, s.has_moment, b.same_status, b.seal.same_finalized_at);
}

-- A request that is answered, of the chain or beside it, leaves the record on the route of its path,
-- with an owner of human resources behind their stage, and finalized only with a result, a snapshot,
-- a token and a moment, where that held before.
pub run_request-IsSound :
    {F : Type 0} (fl : FloatOps F) (env : Env) (user : CurrentUser) (request : Request)
    (c c' : Case)
    → IsSound c.record_
    → run_request fl env user request c ≡ ok (tt, c')
    → IsSound c'.record_
unfolding run_request
run_request-IsSound fl env user (along call) c c' s h = run_call-IsSound fl env user call c c' s h
run_request-IsSound fl env user (beside deed) c c' s h =
    Beside-IsSound c.record_ c'.record_ (run_deed-Beside env user deed c c' h) s
