-- ===== src/Cases/Deeds/Closed.antt =====
-- backend/app/api/routers/evaluations.py: a record that is finalized or cancelled stays as it is.
use nafas_hr.Prelude.{◌≡◌, refl, true, false, arith}
use nafas_hr.Model.Enums.{EvaluationStatus, is_draft}
use nafas_hr.Model.Values.{Env, ok}
use nafas_hr.Model.Evaluation.{Evaluation}
use nafas_hr.Model.Tables.{CurrentUser}
use nafas_hr.Model.Store.{Case}
use nafas_hr.Web.{Exec}
use nafas_hr.Workflow.Table.{is_open}
use nafas_hr.Workflow.Diagram.{
  Route, path_of, Edge, on_route, submits, hr_passes, hr_passes_alone, hr_passes_manager,
  hr_finalizes, deputy_passes, ceo_finalizes, ceo_finalizes_alone, ceo_finalizes_manager,
  hr_returns, deputy_returns, ceo_returns, ceo_returns_manager, cancels_draft, cancels_submitted,
  cancels_hr_approved, cancels_deputy_approved,
}
use nafas_hr.Scoring.Floats.{FloatOps}
use nafas_hr.Cases.Chain.Moves.{Call, run_call, run_call-Moved}
use nafas_hr.Cases.Deeds.Beside.{SameSeal, run_deed-Beside}
use nafas_hr.Cases.Deeds.{Deed, run_deed}

-- A request that changes a record.
pub data Request : Type 0 where
  along : Call → Request
  beside : Deed → Request

-- The endpoint of a request.
unfoldable pub run_request :
    {F : Type 0} → FloatOps F → Env → CurrentUser → Request → Exec Case (Unit {0})
run_request fl env user (along call) = run_call fl env user call
run_request fl env user (beside deed) = run_deed env user deed

-- No arrow of the diagram leaves a status that is not open.
Edge-is_open : {p : Route} {s t : EvaluationStatus} → Edge p s t → is_open s ≡ true
Edge-is_open submits = refl
Edge-is_open hr_passes = refl
Edge-is_open hr_passes_alone = refl
Edge-is_open hr_passes_manager = refl
Edge-is_open hr_finalizes = refl
Edge-is_open deputy_passes = refl
Edge-is_open ceo_finalizes = refl
Edge-is_open ceo_finalizes_alone = refl
Edge-is_open ceo_finalizes_manager = refl
Edge-is_open hr_returns = refl
Edge-is_open deputy_returns = refl
Edge-is_open ceo_returns = refl
Edge-is_open ceo_returns_manager = refl
Edge-is_open cancels_draft = refl
Edge-is_open cancels_submitted = refl
Edge-is_open cancels_hr_approved = refl
Edge-is_open cancels_deputy_approved = refl

closed-on_route : (p : Route) (s : EvaluationStatus) → is_open s ≡ false → on_route p s ≡ true
unfolding on_route
closed-on_route p s h = ground arith

-- Once a record is finalized or cancelled, no request of the chain is answered for it any more.
pub closed_takes_no_call :
    {F : Type 0} (fl : FloatOps F) (env : Env) (user : CurrentUser) (call : Call) (c c' : Case)
    → is_open c.record_.status ≡ false
    → ¬ (run_call fl env user call c ≡ ok (tt, c'))
closed_takes_no_call fl env user call c c' closed h =
    let o = closed-on_route (path_of c.record_) c.record_.status closed in
    let m = run_call-Moved fl env user call c c' o h in
    let opened = Edge-is_open m.edge in ground arith

-- What stands once a record is finalized or cancelled.
pub record Frozen (r r' : Evaluation) : Type 0 where
  pub same_id : r'.id ≡ r.id
  pub same_status : r'.status ≡ r.status
  pub seal : SameSeal r r'
  pub same_words : r'.evaluator_comment ≡ r.evaluator_comment
  pub same_bonus : r'.bonus_points ≡ r.bonus_points
  pub same_ceo : r'.ceo_user_id ≡ r.ceo_user_id
  pub same_owner : r'.hr_user_id ≡ r.hr_user_id

-- A request that is answered for a record that is finalized or cancelled leaves its status, its
-- result, its snapshot, its token, its bonus, the comment of the evaluator and the seats of the
-- chief executive and of human resources as they were.
pub run_request-Frozen :
    {F : Type 0} (fl : FloatOps F) (env : Env) (user : CurrentUser) (request : Request)
    (c c' : Case)
    → is_open c.record_.status ≡ false
    → run_request fl env user request c ≡ ok (tt, c')
    → Frozen c.record_ c'.record_
unfolding run_request
run_request-Frozen fl env user (along call) c c' closed h =
    absurd (closed_takes_no_call fl env user call c c' closed h)
run_request-Frozen fl env user (beside deed) c c' closed h =
    let b = run_deed-Beside env user deed c c' h in
    let not_draft : is_draft c.record_.status ≡ false = ground arith in
    record {
      same_id = b.same_id;
      same_status = b.same_status;
      seal = b.seal;
      same_words = b.same_words not_draft;
      same_bonus = b.same_bonus not_draft;
      same_ceo = (b.same_seats closed).0;
      same_owner = (b.same_seats closed).1;
    }
