-- ===== src/Cases/Chain/Passing.antt =====
-- backend/app/api/routers/evaluations.py: what an approval that does not finalize leaves for the next.
use nafas_hr.Prelude.{
  ℕ, ◌≡◌, refl, ap, ◌∙◌, Bool, true, false, Option, some, List, arith, if◌then◌else◌,
}
use nafas_hr.Model.Enums.{Action}
use nafas_hr.Model.Values.{Env, Result, ok, err, is_ok}
use nafas_hr.Model.Evaluation.{Evaluation, Score}
use nafas_hr.Model.Tables.{
  User, CurrentUser, Personnel, NotificationType, DedupKey, workflow, evaluation_finalized_self,
}
use nafas_hr.Model.Store.{Db, Case}
use nafas_hr.Audit.{log_event}
use nafas_hr.Notifications.{notify_one, notify_for_workflow_action, recipients, subject_account_ids}
use nafas_hr.Notifications.Keeps.{notify-keeps}
use nafas_hr.Workflow.Table.{transition}
use nafas_hr.Workflow.Apply.{apply_transition, no_before, claim, finish, move, has_scores}
use nafas_hr.Workflow.Effects.{apply_transition-Went}
use nafas_hr.Workflow.Advance.{SameSeats, apply_transition-Advance, claim-record}
use nafas_hr.Cases.Snapshot.{personnel_by_id}
use nafas_hr.Cases.Chain.Keeps.{no_before-KeepsStage}
use nafas_hr.Cases.Chain.Answers.{is_ready}

-- What the later approvals read beside the record.
abbrev pub kept : Db → List Score × List Personnel × List User
kept db = (db.scores, db.personnel, db.users)

notify_one-kept :
    (env : Env) (kind : NotificationType) (r : Option ℕ) (key : Option DedupKey) (id : ℕ) (db : Db)
    → kept (notify_one env kind r key id db) ≡ kept db
unfolding notify_one
notify_one-kept env kind r key id db = refl

either-kept :
    (b : Bool) (x y db : Db)
    → kept x ≡ kept db
    → kept y ≡ kept db
    → kept (if b then x else y) ≡ kept db
either-kept true x y db h k = h
either-kept false x y db h k = k

workflow-kept :
    (env : Env) (r : Evaluation) (action : Action) (db : Db)
    → kept (notify_for_workflow_action env r action db) ≡ kept db
unfolding notify_for_workflow_action
workflow-kept env r action db =
    let told =
      notify-keeps kept env (notify_one-kept env) (recipients action r db) (workflow action)
        (some r.id) db in
    either-kept _ _ _ db
      (notify-keeps kept env (notify_one-kept env) (subject_account_ids r db)
          evaluation_finalized_self (some r.id) _
        ∙ told)
      told

claim-kept :
    (env : Env) (action : Action) (user : CurrentUser) (c : Case)
    → kept (claim env (transition action) user c).db ≡ kept c.db
unfolding claim log_event
claim-kept env action user c = ground arith

-- An approval that does not finalize leaves what the next ones read.
pub record Passed (c c' : Case) : Type 0 where
  pub seats : SameSeats c.record_ c'.record_
  pub same_result : c'.record_.final_weighted_pct ≡ c.record_.final_weighted_pct
  pub tables : kept c'.db ≡ kept c.db

pub apply_transition-Passed :
    (env : Env) (action : Action) (user : CurrentUser) (c c' : Case)
    → apply_transition env action user no_before c ≡ ok (tt, c')
    → Passed c c' × (c'.record_.status ≡ (transition action).to_status)
unfolding finish move log_event
apply_transition-Passed env action user c c' h =
    let went = apply_transition-Went env action user no_before c h in
    let advance = apply_transition-Advance env action user no_before c c' no_before-KeepsStage h in
    let claimed : went.middle ≡ claim env (transition action) user c = ground arith in
    (
      record {
        seats = advance.seats;
        same_result =
            ap (λ (x : Case). x.record_.final_weighted_pct) went.ended
            ∙ ap (λ (x : Case). x.record_.final_weighted_pct) claimed
            ∙ ap (λ (x : Evaluation). x.final_weighted_pct) (claim-record env action user c);
        tables =
            ap (λ (x : Case). kept x.db) went.ended
            ∙ workflow-kept env _ action _
            ∙ ap (λ (x : Case). kept x.db) claimed
            ∙ claim-kept env action user c;
      },
      advance.new_status,
    )

-- A call that is answered leaves a case.
pub answered : (r : Result (Unit {0} × Case)) → is_ok r ≡ true → (c' : Case) × (r ≡ ok (tt, c'))
answered (ok (tt, c')) h = (c', refl)
answered (err e) h = absurd (ground arith)

pub is_ready-Passed : (c c' : Case) → Passed c c' → is_ready c' ≡ is_ready c
unfolding is_ready has_scores personnel_by_id
is_ready-Passed c c' p =
    let s = p.seats in
    let scores = ap (λ t. t.0) p.tables in
    let personnel = ap (λ t. t.1) p.tables in
    rw (p.same_result, s.same_id, s.same_subject, scores, personnel) refl
