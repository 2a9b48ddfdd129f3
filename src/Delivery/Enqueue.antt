-- ===== src/Delivery/Enqueue.antt =====
-- backend/app/services/delivery.py: which notifications get rows in the outbox (`OUTBOUND_TYPES`,
-- `_recipient_for`, `enqueue_for`).
use text.Mathlib.Text.{◌==◌ as str_eq}
use nafas_hr.Prelude.{
  ℕ, ◌+◌, ◌==◌, Bool, true, false, not, ◌&&◌, Option, none, some, List, [], ◌∷◌, String, first,
  if◌then◌else◌,
}
use nafas_hr.Model.Enums.{
  DeliveryChannel, email, sms, pending, hr_approve, deputy_approve, hr_return, deputy_return,
  ceo_return,
}
use nafas_hr.Model.Values.{Env}
use nafas_hr.Model.Tables.{
  User, NotificationType, workflow, workflow_reassigned, evaluation_finalized_self, sla_reminder,
  contract_expiry, improvement_review_due, orphaned_case, bulk_evaluations_assigned, Notification,
  NotificationDelivery,
}
use nafas_hr.Model.Store.{Db}
use nafas_hr.Modules.{is_module_enabled}

-- `notification.type in OUTBOUND_TYPES`.
unfoldable pub is_outbound : NotificationType → Bool
is_outbound (workflow hr_approve) = true
is_outbound (workflow deputy_approve) = true
is_outbound (workflow hr_return) = true
is_outbound (workflow deputy_return) = true
is_outbound (workflow ceo_return) = true
is_outbound (workflow _) = false
is_outbound workflow_reassigned = true
is_outbound evaluation_finalized_self = true
is_outbound sla_reminder = true
is_outbound contract_expiry = true
is_outbound improvement_review_due = true
is_outbound orphaned_case = true
is_outbound bulk_evaluations_assigned = true
is_outbound _ = false

abbrev pub is_finalized_self : NotificationType → Bool
is_finalized_self evaluation_finalized_self = true
is_finalized_self _ = false

-- `address if wanted and address else None`: an empty text is no address.
abbrev address_if : Bool → Option String → Option String
address_if false a = none
address_if true none = none
address_if true (some a) = if str_eq a "" then none else some a

-- `_recipient_for`.
unfoldable pub recipient_for : User → DeliveryChannel → Option String
recipient_for user email = address_if user.notify_by_email user.email
recipient_for user sms = address_if user.notify_by_sms user.phone

-- One row for each configured channel on which the user can be reached.
unfoldable pub delivery_rows : User → ℕ → ℕ → List DeliveryChannel → List NotificationDelivery
delivery_rows user notification_id next [] = []
delivery_rows user notification_id next (kind ∷ kinds) = elim (recipient_for user kind) [
  | none ↦ delivery_rows user notification_id next kinds
  | some recipient ↦
      (record {
        id = next;
        notification_id = notification_id;
        channel = kind;
        recipient = recipient;
        status = pending;
        attempts = 0;
        last_attempt_at = none;
        last_error = none;
        sent_at = none;
      })
      ∷ delivery_rows user notification_id (next + 1) kinds
]

-- The rows that `enqueue_for` adds; no row unless the type goes out and the user is active.
unfoldable pub outbound_rows : Env → Notification → Db → List NotificationDelivery
unfolding is_outbound is_module_enabled
outbound_rows env n db =
    if not (is_outbound n.type_)
    then []
    else if is_finalized_self n.type_ && not (is_module_enabled db "employee_evaluation_visibility")
    then []
    else elim (first (λ u. u.id == n.user_id) db.users) [
      | none ↦ []
      | some user ↦ if user.is_active then delivery_rows user n.id db.next_id env.channels else []
    ]
