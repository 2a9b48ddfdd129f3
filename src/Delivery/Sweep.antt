-- ===== src/Delivery/Sweep.antt =====
-- backend/app/services/delivery.py: `run_delivery_sweep`, which sends what waits in the outbox. What a
-- channel answers is a parameter; the counts that the sweep returns are left out.
use nafas_hr.Prelude.{
  ℕ, zero, suc, ◌+◌, ◌-◌, ◌*◌, ◌^◌, ◌==◌, Bool, true, false, not, ◌&&◌, ◌||◌, none, some, List, [],
  ◌∷◌, String, first, length, leb, if◌then◌else◌,
}
use nafas_hr.Model.Enums.{
  DeliveryStatus, DeliveryChannel, email, sms, pending, sent, failed, abandoned,
}
use nafas_hr.Model.Values.{Env}
use nafas_hr.Model.Tables.{NotificationDelivery}
use nafas_hr.Model.Store.{Db}
use nafas_hr.Modules.{is_module_enabled}
use nafas_hr.Delivery.Enqueue.{is_finalized_self}

-- The settings of backend/app/core/config.py that the sweep reads.
pub record DeliverySettings : Type 0 where
  pub delivery_batch_size : ℕ
  pub delivery_max_attempts : ℕ
  pub delivery_retry_base_minutes : ℕ

-- What a channel answers: it has sent, it raises a DeliveryError, or it raises anything else.
pub data SendOutcome : Type 0 where
  delivered : SendOutcome
  refused : Bool → String → SendOutcome
  broke : String → SendOutcome

-- `_retry_delay`, in seconds.
unfoldable pub retry_delay : DeliverySettings → ℕ → ℕ
retry_delay settings attempts = settings.delivery_retry_base_minutes * 60 * (2 ^ (attempts - 1))

-- `_is_due`.
unfoldable pub is_due : DeliverySettings → ℕ → NotificationDelivery → Bool
is_due settings now row = elim row.last_attempt_at [
  | none ↦ true
  | some last ↦ leb (last + retry_delay settings row.attempts) now
]

-- The statuses that the sweep selects.
unfoldable pub is_waiting : DeliveryStatus → Bool
is_waiting pending = true
is_waiting failed = true
is_waiting _ = false

-- A failed attempt is given up where it cannot succeed, or where it was the last one allowed.
unfoldable pub after_refusal : DeliverySettings → ℕ → Bool → DeliveryStatus
after_refusal settings attempts retryable =
    if not retryable || leb settings.delivery_max_attempts attempts then abandoned else failed

-- The `try` of the sweep, on a row whose attempt is already counted.
unfoldable pub settle :
    DeliverySettings → ℕ → SendOutcome → NotificationDelivery → NotificationDelivery
settle settings now delivered row = record row {
  status = sent;
  sent_at = some now;
  last_error = none;
}
settle settings now (refused retryable why) row = record row {
  status = after_refusal settings row.attempts retryable;
  last_error = some why;
}
settle settings now (broke why) row = record row { status = failed; last_error = some why }

unfoldable pub give_up : String → NotificationDelivery → NotificationDelivery
give_up why row = record row { status = abandoned; last_error = some why }

abbrev same_channel : DeliveryChannel → DeliveryChannel → Bool
same_channel email email = true
same_channel sms sms = true
same_channel _ _ = false

abbrev pub has_channel : DeliveryChannel → List DeliveryChannel → Bool
has_channel kind [] = false
has_channel kind (k ∷ ks) = same_channel kind k || has_channel kind ks

module _ (settings : DeliverySettings) (env : Env) (db : Db)
    (send : NotificationDelivery → SendOutcome) where
  -- The row with its attempt counted, once the channel has answered.
  unfoldable pub attempt : NotificationDelivery → NotificationDelivery
  attempt row =
      settle settings env.now (send row)
        (record row { attempts = row.attempts + 1; last_attempt_at = some env.now })

  -- The body of the loop, for one row of the batch.
  unfoldable pub sweep_row : NotificationDelivery → NotificationDelivery
  sweep_row row =
      if not (has_channel row.channel env.channels)
      then row
      else elim (first (λ n. n.id == row.notification_id) db.notifications) [
        | none ↦ give_up "the notification is gone" row
        | some n ↦
            if is_finalized_self n.type_
              && not (is_module_enabled db "employee_evaluation_visibility")
            then give_up "results are hidden" row
            else attempt row
      ]

  -- The rows, oldest first, of which the first `candidates` that wait are read and the first `batch`
  -- of those that are due are taken.
  unfoldable pub sweep_rows : ℕ → ℕ → List NotificationDelivery → List NotificationDelivery
  sweep_rows candidates batch [] = []
  sweep_rows zero batch (row ∷ rows) = row ∷ rows
  sweep_rows (suc candidates) batch (row ∷ rows) =
      let skipped = sweep_rows (suc candidates) batch rows in
      let passed = sweep_rows candidates batch rows in
      let taken = sweep_rows candidates (batch - 1) rows in
      if not (is_waiting row.status)
      then row ∷ skipped
      else if not (is_due settings env.now row) || batch == 0
      then row ∷ passed
      else sweep_row row ∷ taken

  -- `run_delivery_sweep`, which does nothing where no channel is configured.
  unfoldable pub run_delivery_sweep : List NotificationDelivery → List NotificationDelivery
  run_delivery_sweep rows =
      if length env.channels == 0
      then rows
      else sweep_rows (settings.delivery_batch_size * 4) settings.delivery_batch_size rows
