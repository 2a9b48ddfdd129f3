-- ===== src/Delivery/Tests.antt =====
-- The outbox for one user of the company.
use nafas_hr.Prelude.{◌∷◌, true, ℕ, ◌≡◌, refl, some, none, [], All, List, map, arith}
use nafas_hr.Samples.{monday, company}
use nafas_hr.Model.Values.{Env}
use nafas_hr.Model.Enums.{email, failed}
use nafas_hr.Model.Store.{Db}
use nafas_hr.Model.Tables.{NotificationDelivery, Notification, NotificationType, sla_reminder}
use nafas_hr.Delivery.Sweep.{
  DeliverySettings, refused, run_delivery_sweep, is_waiting, is_due, retry_delay,
}
use nafas_hr.Delivery.Endless.{run_sweeps, broken_row_never_ends}
use nafas_hr.Delivery.Retries.{WithinLimit, run_delivery_sweep-WithinLimit}

abbrev notice : NotificationType → ℕ → Notification
notice type_ user_id = record {
  id = 50;
  user_id = user_id;
  type_ = type_;
  evaluation_record_id = some 30;
  dedup_key = none;
  created_at = 900;
}

abbrev defaults : DeliverySettings
defaults = record {
  delivery_batch_size = 50;
  delivery_max_attempts = 5;
  delivery_retry_base_minutes = 5;
}

abbrev waiting : NotificationDelivery
waiting = record {
  id = 60;
  notification_id = 50;
  channel = email;
  recipient = "someone@example.com";
  status = failed;
  attempts = 4;
  last_attempt_at = some 990;
  last_error = none;
  sent_at = none;
}

-- A company with one notification.
abbrev notified : Db
notified = let base = company [] in record base { notifications = notice sla_reminder 3 ∷ [] }

WithinLimit-example :
    All
      (WithinLimit defaults)
      (run_delivery_sweep defaults monday notified (λ _. refused true "busy") (waiting ∷ []))
unfolding is_waiting
WithinLimit-example =
    run_delivery_sweep-WithinLimit defaults monday notified (λ _. refused true "busy")
      (waiting ∷ []) (λ _. refl) (refl, tt)

-- Moments at each of which the row is due again.
abbrev later : List Env
later =
    (record monday { now = 4000 })
    ∷ (record monday { now = 10000 })
    ∷ (record monday { now = 30000 })
    ∷ []

unexpected_example :
    (map (λ r. r.attempts) (run_sweeps defaults notified "boom" later (waiting ∷ [])) ≡ 7 ∷ [])
    × (map (λ r. is_waiting r.status) (run_sweeps defaults notified "boom" later (waiting ∷ []))
        ≡ true ∷ [])
unfolding is_waiting is_due retry_delay
unexpected_example =
    broken_row_never_ends defaults notified "boom" later waiting (notice sla_reminder 3)
      (omega arith) refl refl refl (refl, refl, (refl, refl, (refl, refl, tt)))
