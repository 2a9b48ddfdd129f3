-- ===== src/Cases/Owners/Rules.antt =====
-- backend/app/api/routers/evaluations.py: who owns a case, or sits on a seat of its chain, once human
-- resources have changed that.
use nafas_hr.Prelude.{
  ℕ, ◌≡◌, ◌==◌, Bool, Option, List, map, true, false, some, is_some, is_just, String, arith, [],
  ◌∷◌, if◌then◌else◌,
}
use nafas_hr.Model.Enums.{is_hr}
use nafas_hr.Model.Values.{Env, ok}
use nafas_hr.Model.Tables.{User, CurrentUser, Notification}
use nafas_hr.Model.Store.{Case}
use nafas_hr.Audit.{log_event}
use nafas_hr.Notifications.{notify, notify_all, notify_one}
use nafas_hr.Workflow.Roles.{is_direct_ceo_path, is_manager_path}
use nafas_hr.Guards.{
  is_about, ensure_not_deciding_about_oneself, ensure_evaluators_are_not_the_subject,
  ensure_chain_stages_are_not_redundant, has_conflict, is_redundant,
}
use nafas_hr.Workflow.Table.{seat, is_open}
use nafas_hr.Workflow.Apply.{set_seat}
use nafas_hr.Cases.Snapshot.{first_scorer}
use nafas_hr.Cases.Scores.{is_the_scorer}
use nafas_hr.Cases.Chain.{require_hr, ensure_not_about_oneself, add_top_comment}
use nafas_hr.Cases.Owners.{
  extend_submission_window, put_extension, StageField, field_of, hr_handover, may_own, user_by_id,
  reassign_stage_owner, live_user,
}

-- A case that is handed over belongs to the user that was chosen: a live user of human resources, whom
-- the record is not about. The case was open, and the one who hands it over is of human resources and
-- not the one whom the record is about.
pub hr_handover-owner :
    (env : Env) (id : ℕ) (reason : String) (user : CurrentUser) (c c' : Case) (u : User)
    → user_by_id id c.db ≡ some u
    → hr_handover env id reason user c ≡ ok (tt, c')
    → (c'.record_.hr_user_id ≡ some u.id)
      × (is_hr u.role ≡ true)
      × (u.is_active ≡ true)
      × (is_just c.record_.subject_personnel_id u.personnel_id ≡ false)
      × (is_open c.record_.status ≡ true)
      × (is_hr user.role ≡ true)
      × (is_about c.record_.subject_personnel_id user ≡ false)
unfolding hr_handover require_hr ensure_not_about_oneself ensure_not_deciding_about_oneself may_own
    add_top_comment
hr_handover-owner env id reason user c c' u found h = ground arith

-- The two seats are both taken, by one user.
abbrev pub same_owner : Option ℕ → Option ℕ → Bool
same_owner (some m) (some n) = m == n
same_owner _ _ = false

-- A seat that is given to another user keeps the chain apart: the record was open, the seat was taken
-- before and is the new user's then, who is not linked to the person whom the record is about, and the
-- deputy, where the chain has one, is neither its supervisor nor its chief executive. With no deputy,
-- one user may be both of these.
pub reassign-keeps_apart :
    (env : Env) (field : StageField) (id : ℕ) (reason : String) (user : CurrentUser) (c c' : Case)
    → reassign_stage_owner env field id reason user c ≡ ok (tt, c')
    → (is_open c.record_.status ≡ true)
      × (is_some (seat (field_of field) c.record_) ≡ true)
      × (seat (field_of field) c'.record_ ≡ some id)
      × (has_conflict c.record_.subject_personnel_id (id ∷ []) c.db.users ≡ false)
      × (same_owner c'.record_.unit_supervisor_user_id c'.record_.deputy_user_id ≡ false)
      × (same_owner c'.record_.deputy_user_id (some c'.record_.ceo_user_id) ≡ false)
unfolding reassign_stage_owner require_hr add_top_comment set_seat field_of seat live_user
    user_by_id ensure_evaluators_are_not_the_subject ensure_chain_stages_are_not_redundant
    is_redundant
reassign-keeps_apart env field id reason user c c' h = ground arith

abbrev pub told : List Notification → List ℕ
told ns = map (λ n. n.user_id) ns

-- An extension tells the one who scores the record, except on the path of the chief executive: there
-- the chief executive, who has to submit in the time that was given, is not told, and neither is
-- anybody else.
pub extend-tells_scorer :
    (env : Env) (until : ℕ) (reason : String) (user scorer : CurrentUser) (c c' : Case)
    → is_the_scorer c.record_ scorer ≡ true
    → extend_submission_window env until reason user c ≡ ok (tt, c')
    → told c'.db.notifications ≡ (
        if is_direct_ceo_path c.record_
        then told c.db.notifications
        else scorer.id ∷ told c.db.notifications)
unfolding extend_submission_window require_hr ensure_not_about_oneself is_the_scorer first_scorer
    ensure_not_deciding_about_oneself put_extension add_top_comment is_direct_ceo_path notify
    is_manager_path notify_all notify_one log_event
extend-tells_scorer env until reason user scorer c c' s h = ground arith
