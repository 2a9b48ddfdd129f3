-- ===== src/Bulk/Request.antt =====
-- `run_bulk_create` and `preview_bulk_create` of backend/app/api/routers/periods.py, and `summarise`
-- of backend/app/services/bulk_evaluation.py. The parts of the cohort are logged one by one.
use nafas_hr.Prelude.{
  ℕ, ◌+◌, ◌++◌, Bool, true, false, Option, none, some, List, [], ◌∷◌, String, map, dedup,
  if◌then◌else◌,
}
use nafas_hr.Model.Values.{Env, Json, text, day, flag, counts, Detail}
use nafas_hr.Model.Tables.{CurrentUser, bulk_evaluations_assigned}
use nafas_hr.Model.Store.{Db}
use nafas_hr.Web.{Exec, gets, pure, modify, ◌>>=◌, ◌>>◌}
use nafas_hr.Audit.{log_event}
use nafas_hr.Notifications.{notify}
use nafas_hr.Cases.Chain.{require_hr}
use nafas_hr.Bulk.{
  BulkOutcome, created, skipped_already_open, blocked_inactive, blocked_no_access_row,
  blocked_no_supervisor, blocked_inactive_seat, blocked_conflict, CohortFilter, PersonPlan,
  is_created, plan, execute,
}

abbrev same_outcome : BulkOutcome → BulkOutcome → Bool
same_outcome created created = true
same_outcome skipped_already_open skipped_already_open = true
same_outcome blocked_inactive blocked_inactive = true
same_outcome blocked_no_access_row blocked_no_access_row = true
same_outcome blocked_no_supervisor blocked_no_supervisor = true
same_outcome blocked_inactive_seat blocked_inactive_seat = true
same_outcome blocked_conflict blocked_conflict = true
same_outcome _ _ = false

-- `counts[outcome] = counts.get(outcome, 0) + 1`
unfoldable pub count_outcome : BulkOutcome → List (BulkOutcome × ℕ) → List (BulkOutcome × ℕ)
count_outcome o [] = (o, 1) ∷ []
count_outcome o ((p, n) ∷ rest) =
    if same_outcome p o then (p, n + 1) ∷ rest else (p, n) ∷ count_outcome o rest

count_all : List (BulkOutcome × ℕ) → List PersonPlan → List (BulkOutcome × ℕ)
count_all found [] = found
count_all found (p ∷ ps) = count_all (count_outcome p.outcome found) ps

-- `summarise`: how many plans end in each way.
unfoldable pub summarise : List PersonPlan → List (BulkOutcome × ℕ)
unfolding count_all
summarise plans = count_all [] plans

-- `BulkOutcome.value`.
unfoldable pub outcome_value : BulkOutcome → String
outcome_value created = "created"
outcome_value skipped_already_open = "skipped_already_open"
outcome_value blocked_inactive = "blocked_inactive"
outcome_value blocked_no_access_row = "blocked_no_access_row"
outcome_value blocked_no_supervisor = "blocked_no_supervisor"
outcome_value blocked_inactive_seat = "blocked_inactive_seat"
outcome_value blocked_conflict = "blocked_conflict"

-- A column that is left out where it has no value, as `exclude_none` does.
listed : {A : Type 0} → String → (A → Json) → Option A → Detail
listed key f none = []
listed key f (some a) = (key, f a) ∷ []

unfoldable pub cohort_detail : CohortFilter → Detail
unfolding listed
cohort_detail cohort =
    listed "org_unit" text cohort.org_unit
    ++ (listed "only_managers" flag cohort.only_managers
        ++ listed "contract_ends_before" day cohort.contract_ends_before)

-- The keys of `created_by_assignee`.
unfoldable pub assignees : List PersonPlan → List ℕ
assignees [] = []
assignees (p ∷ ps) =
    let rest = assignees ps in
    elim p.assignee_user_id [
      | none ↦ rest
      | some u ↦ if is_created p.outcome then u ∷ rest else rest
    ]

notify_assignees : Env → List ℕ → Db → Db
notify_assignees env [] db = db
notify_assignees env (id ∷ ids) db =
    notify_assignees env ids (notify env (id ∷ []) bulk_evaluations_assigned none db)

-- `preview_bulk_create`.
unfoldable pub preview_bulk_create : CohortFilter → CurrentUser → Exec Db (List PersonPlan)
preview_bulk_create cohort user = do require_hr user; gets (plan cohort)

-- `run_bulk_create`.
unfoldable pub run_bulk_create :
    Env → (ℕ → Db → Db) → CohortFilter → CurrentUser → Exec Db (List PersonPlan)
unfolding notify_assignees
run_bulk_create env elsewhere cohort user = do
  require_hr user
  plans ← execute env elsewhere cohort
  modify (
      log_event env user.id "evaluations_bulk_created" none none (
        some (
          ("counts", counts (map (λ c. (outcome_value c.0, c.1)) (summarise plans)))
          ∷ cohort_detail cohort)))
  modify (notify_assignees env (dedup (assignees plans)))
  pure plans
