-- ===== src/Delivery/Endless.antt =====
-- backend/app/services/delivery.py: a row whose channel raises an error that is no DeliveryError is
-- tried in every sweep in which it is due, without end.
use nafas_hr.Prelude.{
  ℕ, zero, suc, ◌+◌, ◌*◌, ◌≡◌, ◌<◌, ◌==◌, refl, true, false, some, List, [], ◌∷◌, String, first,
  length, map, arith, ◌∙◌, ap,
}
use nafas_hr.Model.Values.{Env}
use nafas_hr.Model.Tables.{Notification, NotificationDelivery}
use nafas_hr.Model.Store.{Db}
use nafas_hr.Model.Enums.{failed, DeliveryChannel}
use nafas_hr.Delivery.Enqueue.{is_finalized_self}
use nafas_hr.Delivery.Sweep.{
  DeliverySettings, broke, is_due, is_waiting, settle, has_channel, attempt, sweep_row, sweep_rows,
  run_delivery_sweep,
}

module _ (settings : DeliverySettings) (db : Db) (why : String) where
  -- Sweeps at these moments, one after another.
  abbrev pub run_sweeps : List Env → List NotificationDelivery → List NotificationDelivery
  run_sweeps [] rows = rows
  run_sweeps (env ∷ envs) rows =
      run_sweeps envs (run_delivery_sweep settings env db (λ _. broke why) rows)

  -- The row after an attempt at the moment.
  abbrev pub tried : Env → NotificationDelivery → NotificationDelivery
  tried env row = record row {
    attempts = row.attempts + 1;
    last_attempt_at = some env.now;
    status = failed;
    last_error = some why;
  }

  -- At each moment the channel of the row is configured, and the delay since the attempt before is over.
  abbrev pub AreDue : List Env → NotificationDelivery → Type 0
  AreDue [] row = Unit
  AreDue (env ∷ envs) row =
      (has_channel row.channel env.channels ≡ true)
      × (is_due settings env.now row ≡ true)
      × AreDue envs (tried env row)

  row_tried :
      (env : Env) (row : NotificationDelivery) (n : Notification)
      → first (λ x. x.id == row.notification_id) db.notifications ≡ some n
      → is_finalized_self n.type_ ≡ false
      → has_channel row.channel env.channels ≡ true
      → sweep_row settings env db (λ _. broke why) row ≡ tried env row
  unfolding sweep_row attempt settle
  row_tried env row n found f k = ground arith

  only_row :
      (env : Env) (row : NotificationDelivery) (candidates batch : ℕ)
      → 0 < candidates
      → 0 < batch
      → is_waiting row.status ≡ true
      → is_due settings env.now row ≡ true
      → sweep_row settings env db (λ _. broke why) row ≡ tried env row
      → sweep_rows settings env db (λ _. broke why) candidates batch (row ∷ []) ≡ tried env row ∷ []
  unfolding sweep_rows
  only_row env row zero batch c b w d t = absurd (omega (arith, c))
  only_row env row (suc candidates) batch c b w d t = ground arith

  some_channel :
      (env : Env) (row : NotificationDelivery)
      → has_channel row.channel env.channels ≡ true
      → (length env.channels == 0) ≡ false
  some_channel env row k = go env.channels k
    where
      go :
          (ks : List DeliveryChannel) → has_channel row.channel ks ≡ true → (length ks == 0) ≡ false
      go [] h = ground arith
      go (x ∷ xs) h = ground arith

  swept_once :
      (env : Env) (row : NotificationDelivery) (n : Notification)
      → 0 < settings.delivery_batch_size
      → first (λ x. x.id == row.notification_id) db.notifications ≡ some n
      → is_finalized_self n.type_ ≡ false
      → is_waiting row.status ≡ true
      → has_channel row.channel env.channels ≡ true
      → is_due settings env.now row ≡ true
      → run_delivery_sweep settings env db (λ _. broke why) (row ∷ []) ≡ tried env row ∷ []
  unfolding run_delivery_sweep
  swept_once env row n b found f w k d = rw (some_channel env row k) (
      only_row env row (settings.delivery_batch_size * 4) settings.delivery_batch_size
        (omega (arith, b)) b w d (row_tried env row n found f k))

  -- However many sweeps find the row due, each of them tries it once more and leaves it waiting for the
  -- next: where every answer of its channel is an error that is no DeliveryError, the limit of attempts
  -- never ends it. The row stands alone in the outbox, its notification exists and does not tell a
  -- result to the employee, and a sweep takes at least one row.
  pub broken_row_never_ends :
      (envs : List Env) (row : NotificationDelivery) (n : Notification)
      → 0 < settings.delivery_batch_size
      → first (λ x. x.id == row.notification_id) db.notifications ≡ some n
      → is_finalized_self n.type_ ≡ false
      → is_waiting row.status ≡ true
      → AreDue envs row
      → (map (λ r. r.attempts) (run_sweeps envs (row ∷ [])) ≡ (row.attempts + length envs) ∷ [])
        × (map (λ r. is_waiting r.status) (run_sweeps envs (row ∷ [])) ≡ true ∷ [])
  unfolding is_waiting
  broken_row_never_ends [] row n b found f w due = (ground arith, ground arith)
  broken_row_never_ends (env ∷ envs) row n b found f w due =
      let once = swept_once env row n b found f w due.0 due.1 in
      let rest = broken_row_never_ends envs (tried env row) n b found f refl due.2 in
      (
        ap (λ rows. map (λ r. r.attempts) (run_sweeps envs rows)) once
            ∙ rest.0
            ∙ ap (λ m. m ∷ []) (omega arith),
        ap (λ rows. map (λ r. is_waiting r.status) (run_sweeps envs rows)) once ∙ rest.1,
      )
