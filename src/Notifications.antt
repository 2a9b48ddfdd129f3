-- ===== src/Notifications.antt =====
-- backend/app/services/notifications.py: notifications inside the system, and who gets one for each
-- event of the workflow. The texts of the messages are left out.
pub mod Keeps
use text.Mathlib.Text.{◌==◌ as str_eq}
use nafas_hr.Prelude.{
  ℕ, ◌+◌, Bool, true, false, not, ◌&&◌, Option, none, some, List, [], ◌∷◌, ◌++◌, length, select,
  dedup, is_just, or_else, if◌then◌else◌, any, leb, ◌*◌, ◌==◌,
}
use nafas_hr.Model.Enums.{
  is_hr, is_employee, status_value, Action, submit, manager_submit, direct_ceo_submit, hr_approve,
  hr_finalize_direct_ceo, hr_approve_manager, deputy_approve, ceo_finalize, hr_return,
  deputy_return, ceo_return, ceo_return_manager, cancel,
}
use nafas_hr.Model.Values.{Env}
use nafas_hr.Model.Evaluation.{Evaluation}
use nafas_hr.Model.Tables.{
  User, NotificationType, workflow, workflow_reassigned, evaluation_finalized_self, Notification,
  DedupKey, lockout, expiry_of, stalled_at, orphaned_at,
}
use nafas_hr.Model.Store.{Db}
use nafas_hr.Modules.{is_module_enabled}
use nafas_hr.Delivery.Enqueue.{is_finalized_self, outbound_rows}

-- One notification, as `notify` and `notify_once` add it: its row, and its rows in the outbox.
unfoldable pub notify_one : Env → NotificationType → Option ℕ → Option DedupKey → ℕ → Db → Db
notify_one env kind record_id key user_id db =
    let n : Notification = record {
      id = db.next_id;
      user_id = user_id;
      type_ = kind;
      evaluation_record_id = record_id;
      dedup_key = key;
      created_at = env.now;
    } in
    let db' = record db { notifications = n ∷ db.notifications; next_id = db.next_id + 1 } in
    let rows = outbound_rows env n db' in
    record db' { deliveries = db'.deliveries ++ rows; next_id = db'.next_id + length rows }

unfoldable pub notify_all : Env → NotificationType → Option ℕ → List ℕ → Db → Db
notify_all env kind record_id [] db = db
notify_all env kind record_id (user_id ∷ ids) db =
    notify_all env kind record_id ids (notify_one env kind record_id none user_id db)

-- `notify`: each user once.
unfoldable pub notify : Env → List ℕ → NotificationType → Option ℕ → Db → Db
notify env user_ids kind record_id db =
    if is_finalized_self kind && not (is_module_enabled db "employee_evaluation_visibility")
    then db
    else notify_all env kind record_id (dedup user_ids) db

-- Equality of the texts that the keys stand for.
abbrev pub key_eq : DedupKey → DedupKey → Bool
key_eq (lockout u t) (lockout v s) = str_eq u v && t == s
key_eq (expiry_of n) (expiry_of m) = n == m
key_eq (stalled_at n s) (stalled_at m t) = n == m && str_eq (status_value s) (status_value t)
key_eq (orphaned_at n s) (orphaned_at m t) = n == m && str_eq (status_value s) (status_value t)
key_eq _ _ = false

-- Equality with a column that may be NULL.
abbrev pub is_key : DedupKey → Option DedupKey → Bool
is_key key none = false
is_key key (some k) = key_eq k key

-- `exists` of `notify_once`; `created_at >= now - days` is written without the difference.
unfoldable pub was_notified : Env → ℕ → DedupKey → ℕ → Db → Bool
was_notified env user_id key days db =
    any
      (λ n.
        n.user_id == user_id
        && (is_key key n.dedup_key && leb env.now (n.created_at + days * 86400)))
      db.notifications

-- `notify_once`: the answer tells whether a notification was added.
unfoldable pub notify_once : Env → ℕ → NotificationType → DedupKey → ℕ → Option ℕ → Db → Bool × Db
notify_once env user_id kind key days record_id db =
    if is_finalized_self kind && not (is_module_enabled db "employee_evaluation_visibility")
    then (false, db)
    else if was_notified env user_id key days db
    then (false, db)
    else (true, notify_one env kind record_id (some key) user_id db)

abbrev ids_of : List User → List ℕ
ids_of [] = []
ids_of (u ∷ us) = u.id ∷ ids_of us

-- `_active_user_ids_with_role(db, UserRole.hr)`, the only role it is asked for.
unfoldable pub active_hr_ids : Db → List ℕ
active_hr_ids db = ids_of (select (λ u. is_hr u.role && u.is_active) db.users)

-- The active employee accounts of the subject of a record.
unfoldable pub subject_account_ids : Evaluation → Db → List ℕ
subject_account_ids r db = ids_of (
    select (λ u. is_employee u.role && is_just r.subject_personnel_id u.personnel_id && u.is_active)
      db.users)

-- `[x] if x is not None else []`.
abbrev pub listed : Option ℕ → List ℕ
listed none = []
listed (some n) = n ∷ []

-- `evaluator_id` of `notify_for_workflow_action`: the one who scores first.
unfoldable pub evaluator_of : Evaluation → Option ℕ
evaluator_of r = elim r.unit_supervisor_user_id [
  | none ↦ or_else r.deputy_user_id (some r.ceo_user_id)
  | some u ↦ some u
]

-- `recipients` of `notify_for_workflow_action`.
unfoldable pub recipients : Action → Evaluation → Db → List ℕ
recipients submit r db = active_hr_ids db
recipients manager_submit r db = active_hr_ids db
recipients direct_ceo_submit r db = active_hr_ids db
recipients hr_approve r db = listed (or_else r.deputy_user_id (some r.ceo_user_id))
recipients hr_approve_manager r db = r.ceo_user_id ∷ []
recipients hr_finalize_direct_ceo r db = r.ceo_user_id ∷ []
recipients deputy_approve r db = r.ceo_user_id ∷ []
recipients ceo_finalize r db = listed (evaluator_of r)
recipients hr_return r db = listed (evaluator_of r)
recipients deputy_return r db = active_hr_ids db
recipients ceo_return r db = listed (or_else r.deputy_user_id (some r.ceo_user_id))
recipients ceo_return_manager r db = active_hr_ids db
recipients cancel r db =
    listed r.unit_supervisor_user_id ++ (listed r.deputy_user_id ++ r.ceo_user_id ∷ [])

abbrev is_finalizing : Action → Bool
is_finalizing ceo_finalize = true
is_finalizing hr_finalize_direct_ceo = true
is_finalizing _ = false

-- `notify_for_workflow_action`.
unfoldable pub notify_for_workflow_action : Env → Evaluation → Action → Db → Db
notify_for_workflow_action env r action db =
    let db' = notify env (recipients action r db) (workflow action) (some r.id) db in
    if is_finalizing action && is_module_enabled db "employee_evaluation_visibility"
    then notify env (subject_account_ids r db) evaluation_finalized_self (some r.id) db'
    else db'

-- `notify_stage_owner_reassigned`.
unfoldable pub notify_stage_owner_reassigned : Env → Evaluation → ℕ → Db → Db
notify_stage_owner_reassigned env r new_owner_id db =
    notify env (new_owner_id ∷ []) workflow_reassigned (some r.id) db
