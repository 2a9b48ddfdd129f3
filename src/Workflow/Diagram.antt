-- ===== src/Workflow/Diagram.antt =====
-- backend/app/services/workflow.py: the state diagram that the table of transitions draws, one for
-- each path of a record.
use nafas_hr.Prelude.{ℕ, ◌≡◌, arith, refl, Bool, true, false, Option, none, some, not}
use nafas_hr.Model.Enums.{
  EvaluationStatus, draft, submitted, hr_approved, deputy_approved, finalized, cancelled, Action,
  submit, manager_submit, direct_ceo_submit, hr_approve, hr_finalize_direct_ceo, hr_approve_manager,
  deputy_approve, ceo_finalize, hr_return, deputy_return, ceo_return, ceo_return_manager, cancel,
}
use nafas_hr.Model.Evaluation.{Evaluation}
use nafas_hr.Model.Tables.{CurrentUser}
use nafas_hr.Model.Store.{Case}
use nafas_hr.Workflow.Roles.{is_manager_path, is_direct_ceo_path}
use nafas_hr.Workflow.Table.{transition, Meets, seat, holds_seat, deputy_user_id}
use nafas_hr.Workflow.Advance.{Advance, SameSeats}

-- The path of a record, by the seats that its chain has.
pub data Route : Type 0 where
  standard without_deputy manager direct_ceo : Route

-- From the seats of the supervisor and of the deputy.
unfoldable pub path_by : Option ℕ → Option ℕ → Route
path_by (some _) (some _) = standard
path_by (some _) none = without_deputy
path_by none (some _) = manager
path_by none none = direct_ceo

unfoldable pub path_of : Evaluation → Route
unfolding path_by
path_of r = path_by r.unit_supervisor_user_id r.deputy_user_id

-- The stages that each path has.
unfoldable pub on_route : Route → EvaluationStatus → Bool
on_route without_deputy deputy_approved = false
on_route manager hr_approved = false
on_route direct_ceo hr_approved = false
on_route direct_ceo deputy_approved = false
on_route _ _ = true

-- The arrows of the diagram.
pub data Edge : Route → EvaluationStatus → EvaluationStatus → Type 0 where
  submits : {p : Route} → Edge p draft submitted
  hr_passes : Edge standard submitted hr_approved
  hr_passes_alone : Edge without_deputy submitted hr_approved
  hr_passes_manager : Edge manager submitted deputy_approved
  hr_finalizes : Edge direct_ceo submitted finalized
  deputy_passes : Edge standard hr_approved deputy_approved
  ceo_finalizes : Edge standard deputy_approved finalized
  ceo_finalizes_alone : Edge without_deputy hr_approved finalized
  ceo_finalizes_manager : Edge manager deputy_approved finalized
  hr_returns : {p : Route} → Edge p submitted draft
  deputy_returns : Edge standard hr_approved submitted
  ceo_returns : Edge standard deputy_approved hr_approved
  ceo_returns_manager : Edge manager deputy_approved submitted
  cancels_draft : {p : Route} → Edge p draft cancelled
  cancels_submitted : {p : Route} → Edge p submitted cancelled
  cancels_hr_approved : {p : Route} → Edge p hr_approved cancelled
  cancels_deputy_approved : {p : Route} → Edge p deputy_approved cancelled

-- A step of the diagram stays on the route of its path.
pub Edge-on_route : {p : Route} {s t : EvaluationStatus} → Edge p s t → on_route p t ≡ true
unfolding on_route
Edge-on_route {p = standard} e = ground arith
Edge-on_route submits = ground arith
Edge-on_route hr_passes_alone = refl
Edge-on_route hr_passes_manager = refl
Edge-on_route hr_finalizes = refl
Edge-on_route ceo_finalizes_alone = refl
Edge-on_route ceo_finalizes_manager = refl
Edge-on_route hr_returns = ground arith
Edge-on_route ceo_returns_manager = refl
Edge-on_route cancels_draft = ground arith
Edge-on_route cancels_submitted = ground arith
Edge-on_route cancels_hr_approved = ground arith
Edge-on_route cancels_deputy_approved = ground arith

-- Human resources pass a record on to the deputy's stage only where its chain has a deputy; the
-- guard of the row alone does not ask for that.
unfoldable pub chosen : Action → Evaluation → Bool
chosen hr_approve_manager r = not (is_direct_ceo_path r)
chosen _ _ = true

-- The table, with what it reads of a record as arguments.
abbrev row_passes : Action → EvaluationStatus → Option ℕ → Option ℕ → Bool
row_passes submit draft (some _) _ = true
row_passes manager_submit draft none _ = true
row_passes direct_ceo_submit draft none none = true
row_passes hr_approve submitted (some _) _ = true
row_passes hr_finalize_direct_ceo submitted none none = true
row_passes hr_approve_manager submitted none (some _) = true
row_passes deputy_approve hr_approved _ (some _) = true
row_passes ceo_finalize deputy_approved _ _ = true
row_passes ceo_finalize hr_approved _ none = true
row_passes hr_return submitted _ _ = true
row_passes deputy_return hr_approved _ (some _) = true
row_passes ceo_return deputy_approved (some _) _ = true
row_passes ceo_return_manager deputy_approved none _ = true
row_passes cancel draft _ _ = true
row_passes cancel submitted _ _ = true
row_passes cancel hr_approved _ _ = true
row_passes cancel deputy_approved _ _ = true
row_passes _ _ _ _ = false

Meets-row_passes :
    (a : Action) (r : Evaluation) (user : CurrentUser)
    → Meets (transition a) r user
    → chosen a r ≡ true
    → row_passes a r.status r.unit_supervisor_user_id r.deputy_user_id ≡ true
unfolding transition is_manager_path is_direct_ceo_path seat holds_seat chosen
Meets-row_passes submit r user m h = ground (arith, m.at_status, m.passes)
Meets-row_passes manager_submit r user m h = ground (arith, m.at_status, m.passes)
Meets-row_passes direct_ceo_submit r user m h = ground (arith, m.at_status, m.passes)
Meets-row_passes hr_approve r user m h = ground (arith, m.at_status, m.passes)
Meets-row_passes hr_finalize_direct_ceo r user m h = ground (arith, m.at_status, m.passes)
Meets-row_passes hr_approve_manager r user m h = ground (arith, m.at_status, m.passes)
Meets-row_passes deputy_approve r user m h =
    ground (arith, m.at_status, m.passes, m.has_seat deputy_user_id refl)
Meets-row_passes ceo_finalize r user m h = ground (arith, m.at_status, m.passes)
Meets-row_passes hr_return r user m h = ground (arith, m.at_status, m.passes)
Meets-row_passes deputy_return r user m h =
    ground (arith, m.at_status, m.passes, m.has_seat deputy_user_id refl)
Meets-row_passes ceo_return r user m h = ground (arith, m.at_status, m.passes)
Meets-row_passes ceo_return_manager r user m h = ground (arith, m.at_status, m.passes)
Meets-row_passes cancel r user m h = ground (arith, m.at_status, m.passes)

Edge-by :
    (a : Action) (s : EvaluationStatus) (sup dep : Option ℕ)
    → row_passes a s sup dep ≡ true
    → on_route (path_by sup dep) s ≡ true
    → Edge (path_by sup dep) s (transition a).to_status
unfolding transition on_route path_by
Edge-by submit draft (some _) (some _) h o = submits
Edge-by submit draft (some _) none h o = submits
Edge-by manager_submit draft none (some _) h o = submits
Edge-by manager_submit draft none none h o = submits
Edge-by direct_ceo_submit draft none none h o = submits
Edge-by hr_approve submitted (some _) (some _) h o = hr_passes
Edge-by hr_approve submitted (some _) none h o = hr_passes_alone
Edge-by hr_finalize_direct_ceo submitted none none h o = hr_finalizes
Edge-by hr_approve_manager submitted none (some _) h o = hr_passes_manager
Edge-by deputy_approve hr_approved (some _) (some _) h o = deputy_passes
Edge-by ceo_finalize deputy_approved (some _) (some _) h o = ceo_finalizes
Edge-by ceo_finalize deputy_approved none (some _) h o = ceo_finalizes_manager
Edge-by ceo_finalize hr_approved (some _) none h o = ceo_finalizes_alone
Edge-by hr_return submitted (some _) (some _) h o = hr_returns
Edge-by hr_return submitted (some _) none h o = hr_returns
Edge-by hr_return submitted none (some _) h o = hr_returns
Edge-by hr_return submitted none none h o = hr_returns
Edge-by deputy_return hr_approved (some _) (some _) h o = deputy_returns
Edge-by ceo_return deputy_approved (some _) (some _) h o = ceo_returns
Edge-by ceo_return_manager deputy_approved none (some _) h o = ceo_returns_manager
Edge-by cancel draft _ _ h o = cancels_draft
Edge-by cancel submitted _ _ h o = cancels_submitted
Edge-by cancel hr_approved _ _ h o = cancels_hr_approved
Edge-by cancel deputy_approved _ _ h o = cancels_deputy_approved
Edge-by _ _ _ _ h o = absurd (ground arith)

-- A transition that has gone through is an arrow of the diagram of the path of the record.
pub Advance-Edge :
    (a : Action) (user : CurrentUser) (c c' : Case)
    → Advance a user c c'
    → chosen a c.record_ ≡ true
    → on_route (path_of c.record_) c.record_.status ≡ true
    → Edge (path_of c.record_) c.record_.status c'.record_.status
unfolding path_of
Advance-Edge a user c c' d h o =
    let r = c.record_ in
    let e =
      Edge-by a r.status r.unit_supervisor_user_id r.deputy_user_id
        (Meets-row_passes a r user d.meets h) o in
    rw d.new_status (e)

-- The path of a record is that of its seats.
pub SameSeats-path_of : (r r' : Evaluation) → SameSeats r r' → path_of r' ≡ path_of r
unfolding path_of
SameSeats-path_of r r' s = ground arith
