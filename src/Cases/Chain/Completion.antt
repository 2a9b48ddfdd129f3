-- ===== src/Cases/Chain/Completion.antt =====
-- backend/app/api/routers/evaluations.py: the approvals of a chain, made one after another by the
-- accounts on its seats.
use nafas_hr.Prelude.{ℕ, Bool, true, Option, none, some, [], ◌∷◌, if◌then◌else◌}
use nafas_hr.Model.Enums.{deputy}
use nafas_hr.Model.Values.{Env}
use nafas_hr.Model.Evaluation.{Evaluation}
use nafas_hr.Model.Tables.{CurrentUser}
use nafas_hr.Model.Store.{Db, Case}
use nafas_hr.Web.{Exec}
use nafas_hr.Workflow.Roles.{may_act_at, is_direct_ceo_path, is_manager_path}
use nafas_hr.Cases.Chain.{hr_approve_evaluation, deputy_approve_evaluation, ceo_finalize_evaluation}
use nafas_hr.Cases.Chain.Accounts.{Approvals, live}

-- The account on the deputy's seat, where the chain has one, can act there.
abbrev pub deputy_lives : Option ℕ → Db → Bool
deputy_lives none db = true
deputy_lives (some d) db = live (λ u. may_act_at u.role deputy) d db

module _ (e1 e2 e3 : Env) where
  abbrev pub by_ceo : Evaluation → ℕ × (CurrentUser → Exec Case (Unit {0}))
  by_ceo r = (r.ceo_user_id, ceo_finalize_evaluation e3)

  -- The approvals that are left after that of human resources.
  abbrev pub later_approvals : Evaluation → Option ℕ → Approvals
  later_approvals r none = by_ceo r ∷ []
  later_approvals r (some d) =
      if is_manager_path r then by_ceo r ∷ [] else (d, deputy_approve_evaluation e2) ∷ by_ceo r ∷ []

  -- The approvals of a submitted record, the first by the account `h` of human resources.
  abbrev pub approvals : ℕ → Evaluation → Approvals
  approvals h r =
      (h, hr_approve_evaluation e1)
      ∷ (if is_direct_ceo_path r then [] else later_approvals r r.deputy_user_id)
