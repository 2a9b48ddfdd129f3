-- ===== src/Scheduled/Owners.antt =====
-- When the sweep over records that stand still goes through.
use nafas_hr.Prelude.{
  ◌≡◌, refl, ap, ◌∙◌, ℕ, Bool, true, false, not, ◌&&◌, Option, none, some, List, [], ◌∷◌, any,
  select, is_none, arith,
}
use nafas_hr.Model.Enums.{is_hr_approved}
use nafas_hr.Model.Values.{Env, is_ok}
use nafas_hr.Model.Evaluation.{Evaluation}
use nafas_hr.Model.Store.{Db}
use nafas_hr.Notifications.{notify_once, active_hr_ids}
use nafas_hr.Model.Tables.{stalled_at, sla_reminder}
use nafas_hr.Web.{>>=-is_ok}
use nafas_hr.Scheduled.{
  SweepSettings, all_some, listed, draft_owner, current_owner_ids, remind_owner, remind_owners,
  is_stalled, remind_records, run_sla_sweep,
}

abbrev all_known : List (Option ℕ) → Bool
all_known [] = true
all_known (none ∷ os) = false
all_known (some n ∷ os) = all_known os

all_some-known : (ns : List ℕ) → all_known (all_some ns) ≡ true
all_some-known [] = refl
all_some-known (n ∷ ns) = all_some-known ns

listed-known : (o : Option ℕ) → all_known (listed o) ≡ true
listed-known none = refl
listed-known (some n) = refl

-- The record waits for a deputy, and its chain has none.
abbrev pub lacks_owner : Evaluation → Bool
lacks_owner r = is_hr_approved r.status && is_none r.deputy_user_id

owners-known : (db : Db) (r : Evaluation) → all_known (current_owner_ids db r) ≡ not (lacks_owner r)
unfolding current_owner_ids
owners-known db r = ground (arith, all_some-known (active_hr_ids db), listed-known (draft_owner r))

remind_owners-is_ok :
    (settings : SweepSettings) (env : Env) (r : Evaluation) (os : List (Option ℕ)) (db : Db)
    → is_ok (remind_owners settings env r os db) ≡ all_known os
unfolding remind_owners remind_owner
remind_owners-is_ok settings env r [] db = refl
remind_owners-is_ok settings env r (none ∷ os) db = refl
remind_owners-is_ok settings env r (some n ∷ os) db =
    let sent =
      notify_once env n sla_reminder (stalled_at r.id r.status) settings.sla_reminder_days
        (some r.id) db in
    >>=-is_ok (remind_owners settings env r os) _ sent.1 true (λ m t. refl)
    ∙ ap (λ b. b && true) (remind_owners-is_ok settings env r os sent.1)
    ∙ ground arith

remind_records-is_ok :
    (settings : SweepSettings) (env : Env) (rs : List Evaluation) (db : Db)
    → is_ok (remind_records settings env rs db) ≡ not (any lacks_owner rs)
unfolding remind_records
remind_records-is_ok settings env [] db = refl
remind_records-is_ok settings env (r ∷ rs) db =
    >>=-is_ok (remind_owners settings env r (current_owner_ids db r)) _ db
      (not (any lacks_owner rs))
      (λ n t.
        >>=-is_ok (remind_records settings env rs) _ t true (λ m u. refl)
        ∙ ap (λ b. b && true) (remind_records-is_ok settings env rs t)
        ∙ ground arith)
    ∙ ap (λ b. b && not (any lacks_owner rs))
        (remind_owners-is_ok settings env r (current_owner_ids db r) db ∙ owners-known db r)
    ∙ ground arith

any-select :
    (f : Evaluation → Bool) (rs : List Evaluation)
    → any lacks_owner (select f rs) ≡ any (λ r. f r && lacks_owner r) rs
any-select f [] = refl
any-select f (r ∷ rs) = ground (arith, any-select f rs)

-- The sweep over the records that stand still goes through exactly when none of them waits for a
-- deputy that its chain does not have; otherwise it raises, whatever else it had to do.
pub run_sla_sweep-is_ok :
    (settings : SweepSettings) (env : Env) (db : Db)
    → is_ok (run_sla_sweep settings env db)
      ≡ not (any (λ r. is_stalled settings env r && lacks_owner r) db.evaluations)
unfolding run_sla_sweep
run_sla_sweep-is_ok settings env db =
    remind_records-is_ok settings env (select (is_stalled settings env) db.evaluations) db
    ∙ ap not (any-select (is_stalled settings env) db.evaluations)
