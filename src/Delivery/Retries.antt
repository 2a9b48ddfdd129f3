-- ===== src/Delivery/Retries.antt =====
-- backend/app/services/delivery.py: how often the sweep tries a row of the outbox, and which rows it
-- leaves alone.
use nafas_hr.Prelude.{
  ℕ, zero, suc, ◌-◌, ◌*◌, ◌≡◌, refl, ◌==◌, Bool, true, false, not, ◌&&◌, ◌||◌, Option, none, some,
  List, [], ◌∷◌, String, length, leb, ltb, arith, if◌then◌else◌, All,
}
use nafas_hr.Model.Values.{Env}
use nafas_hr.Model.Tables.{NotificationDelivery}
use nafas_hr.Model.Store.{Db}
use nafas_hr.Delivery.Sweep.{
  DeliverySettings, SendOutcome, delivered, refused, broke, is_due, is_waiting, after_refusal,
  settle, give_up, attempt, sweep_row, sweep_rows, run_delivery_sweep,
}

-- The row at a position.
unfoldable pub get_elem? {ℓ} : {A : Type ℓ} → ℕ → List A → Option A
get_elem? n [] = none
get_elem? zero (x ∷ xs) = some x
get_elem? (suc n) (x ∷ xs) = get_elem? n xs

-- The channel raised an error that is no DeliveryError.
abbrev pub is_broke : SendOutcome → Bool
is_broke (broke _) = true
is_broke _ = false

-- A row has been tried no more often than is allowed, and one that waits may be tried again.
abbrev pub WithinLimit : DeliverySettings → NotificationDelivery → Type 0
WithinLimit settings row =
    (leb row.attempts settings.delivery_max_attempts
      && (not (is_waiting row.status) || ltb row.attempts settings.delivery_max_attempts))
    ≡ true

if-All :
    (P : NotificationDelivery → Type 0) (b : Bool) (xs ys : List NotificationDelivery)
    → (b ≡ true → All P xs)
    → (b ≡ false → All P ys)
    → All P (if b then xs else ys)
if-All P true xs ys h k = h refl
if-All P false xs ys h k = k refl

module _ (settings : DeliverySettings) (env : Env) (db : Db)
    (send : NotificationDelivery → SendOutcome) where
  settle-WithinLimit :
      (o : SendOutcome) (row : NotificationDelivery)
      → is_broke o ≡ false
      → leb row.attempts settings.delivery_max_attempts ≡ true
      → WithinLimit settings (settle settings env.now o row)
  unfolding settle after_refusal is_waiting
  settle-WithinLimit delivered row b h = ground arith
  settle-WithinLimit (refused retryable why) row b h = ground arith
  settle-WithinLimit (broke why) row b h = absurd (ground arith)

  attempt-WithinLimit :
      (row : NotificationDelivery)
      → is_broke (send row) ≡ false
      → is_waiting row.status ≡ true
      → WithinLimit settings row
      → WithinLimit settings (attempt settings env db send row)
  unfolding attempt
  attempt-WithinLimit row b w h = settle-WithinLimit (send row) _ b (ground arith)

  give_up-WithinLimit :
      (why : String) (row : NotificationDelivery)
      → WithinLimit settings row
      → WithinLimit settings (give_up why row)
  unfolding give_up is_waiting
  give_up-WithinLimit why row h = ground arith

  sweep_row-WithinLimit :
      (row : NotificationDelivery)
      → is_broke (send row) ≡ false
      → is_waiting row.status ≡ true
      → WithinLimit settings row
      → WithinLimit settings (sweep_row settings env db send row)
  unfolding sweep_row
  sweep_row-WithinLimit row b w h = ground (
    arith,
    attempt-WithinLimit row b w h,
    give_up-WithinLimit "the notification is gone" row h,
    give_up-WithinLimit "results are hidden" row h,
  )

  sweep_rows-WithinLimit :
      (candidates batch : ℕ) (rows : List NotificationDelivery)
      → ((row : NotificationDelivery) → is_broke (send row) ≡ false)
      → All (WithinLimit settings) rows
      → All (WithinLimit settings) (sweep_rows settings env db send candidates batch rows)
  unfolding sweep_rows
  sweep_rows-WithinLimit candidates batch [] b h = tt
  sweep_rows-WithinLimit zero batch (row ∷ rows) b h = h
  sweep_rows-WithinLimit (suc candidates) batch (row ∷ rows) b h =
      let P = WithinLimit settings in
      let sweep = sweep_rows settings env db send in
      let left_out = not (is_due settings env.now row) || batch == 0 in
      let swept = sweep_row settings env db send row ∷ sweep candidates (batch - 1) rows in
      let passed = row ∷ sweep candidates batch rows in
      if-All P (not (is_waiting row.status)) (row ∷ sweep (suc candidates) batch rows)
        (if left_out then passed else swept)
        (λ _. (h.0, sweep_rows-WithinLimit (suc candidates) batch rows b h.1))
        (λ w.
          if-All P left_out passed swept
            (λ _. (h.0, sweep_rows-WithinLimit candidates batch rows b h.1))
            (λ _. (
              sweep_row-WithinLimit row (b row) (ground arith) h.0,
              sweep_rows-WithinLimit candidates (batch - 1) rows b h.1,
            )))

  -- No row is tried more often than is allowed, and one that waits may be tried again: a sweep keeps
  -- that of all rows, as long as no channel raises an error that is no DeliveryError.
  pub run_delivery_sweep-WithinLimit :
      (rows : List NotificationDelivery)
      → ((row : NotificationDelivery) → is_broke (send row) ≡ false)
      → All (WithinLimit settings) rows
      → All (WithinLimit settings) (run_delivery_sweep settings env db send rows)
  unfolding run_delivery_sweep
  run_delivery_sweep-WithinLimit rows b h =
      let batch = settings.delivery_batch_size in
      if-All (WithinLimit settings) (length env.channels == 0) rows
        (sweep_rows settings env db send (batch * 4) batch rows) (λ _. h)
        (λ _. sweep_rows-WithinLimit (batch * 4) batch rows b h)

  sweep_rows-keeps :
      (candidates batch n : ℕ) (rows : List NotificationDelivery) {row : NotificationDelivery}
      → get_elem? n rows ≡ some row
      → (is_waiting row.status && is_due settings env.now row) ≡ false
      → get_elem? n (sweep_rows settings env db send candidates batch rows) ≡ some row
  unfolding sweep_rows get_elem?
  sweep_rows-keeps candidates batch n [] {row} e h = absurd (ground arith)
  sweep_rows-keeps zero batch n (x ∷ xs) {row} e h = e
  sweep_rows-keeps (suc candidates) batch zero (x ∷ xs) {row} e h = ground arith
  sweep_rows-keeps (suc candidates) batch (suc n) (x ∷ xs) {row} e h = ground (
    arith,
    sweep_rows-keeps (suc candidates) batch n xs {row = row} e h,
    sweep_rows-keeps candidates batch n xs {row = row} e h,
    sweep_rows-keeps candidates (batch - 1) n xs {row = row} e h,
  )

  -- A sweep leaves a row as it is, at its place, that has been sent or given up, or whose next attempt
  -- is not due yet.
  run_delivery_sweep-keeps :
      (n : ℕ) (rows : List NotificationDelivery) {row : NotificationDelivery}
      → get_elem? n rows ≡ some row
      → (is_waiting row.status && is_due settings env.now row) ≡ false
      → get_elem? n (run_delivery_sweep settings env db send rows) ≡ some row
  unfolding run_delivery_sweep
  run_delivery_sweep-keeps n rows {row} e h = ground (
    arith,
    sweep_rows-keeps (settings.delivery_batch_size * 4) settings.delivery_batch_size n rows
        {row = row} e h,
  )
