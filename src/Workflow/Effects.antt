-- ===== src/Workflow/Effects.antt =====
-- backend/app/services/workflow.py: what a transition that goes through has done.
use nafas_hr.Prelude.{◌≡◌, refl, ap, ◌∙◌, true, false, arith, Bool}
use nafas_hr.Model.Enums.{Action}
use nafas_hr.Model.Values.{Env, Result, ok, err}
use nafas_hr.Model.Tables.{CurrentUser}
use nafas_hr.Model.Store.{Case}
use nafas_hr.Web.{Exec}
use nafas_hr.Workflow.Table.{
  Transition, transition, ensure_transition_allowed, ensure_transition_allowed-eq,
}
use nafas_hr.Workflow.Apply.{claim, finish, lacks_result, apply_transition}

-- The parts of a transition that went through.
pub record Went (env : Env) (action : Action) (user : CurrentUser) (before : Exec Case (Unit {0}))
    (c c' : Case) : Type 0 where
  pub allowed : ensure_transition_allowed c.record_ action user ≡ ok (transition action)
  pub has_result : lacks_result action c ≡ false
  pub middle : Case
  pub ran : before (claim env (transition action) user c) ≡ ok (tt, middle)
  pub ended : c' ≡ finish env action user middle

module _ (env : Env) (action : Action) (user : CurrentUser) (before : Exec Case (Unit {0}))
    (c : Case) {c' : Case} where
  -- With the answers of the three steps that may raise named.
  Went-by :
      (a : Result Transition) (lacks : Bool) (b : Result (Unit {0} × Case))
      → ensure_transition_allowed c.record_ action user ≡ a
      → a ≡ ok (transition action)
      → lacks_result action c ≡ lacks
      → before (claim env (transition action) user c) ≡ b
      → apply_transition env action user before c ≡ ok (tt, c')
      → Went env action user before c c'
  unfolding apply_transition
  Went-by a true b ea ok_a el eb h = absurd (ground arith)
  Went-by a false (err x) ea ok_a el eb h = absurd (ground arith)
  Went-by a false (ok (u, m)) ea ok_a el eb h = record {
    allowed = ea ∙ ok_a;
    has_result = el;
    middle = m;
    ran = eb;
    ended = ground arith;
  }

  allowed_of :
      (a : Result Transition)
      → ensure_transition_allowed c.record_ action user ≡ a
      → apply_transition env action user before c ≡ ok (tt, c')
      → a ≡ ok (transition action)
  unfolding apply_transition
  allowed_of (err x) ea h = absurd (ground arith)
  allowed_of (ok spec) ea h = ap ok (ensure_transition_allowed-eq c.record_ action user ea)

  pub apply_transition-Went :
      apply_transition env action user before c ≡ ok (tt, c') → Went env action user before c c'
  apply_transition-Went h =
      Went-by (ensure_transition_allowed c.record_ action user) (lacks_result action c)
        (before (claim env (transition action) user c)) refl
        (allowed_of (ensure_transition_allowed c.record_ action user) refl h) refl refl h
