-- ===== src/Delivery/Reach.antt =====
-- backend/app/services/delivery.py: to whom the outbox sends.
use nafas_hr.Prelude.{
  ℕ, ◌≡◌, ◌+◌, refl, ◌==◌, Bool, true, false, not, ◌&&◌, Option, none, some, List, [], ◌∷◌, first,
  All, arith, if◌then◌else◌, String,
}
use nafas_hr.Model.Enums.{DeliveryChannel, pending}
use nafas_hr.Model.Values.{Env}
use nafas_hr.Model.Tables.{User, Notification, NotificationDelivery}
use nafas_hr.Model.Store.{Db}
use nafas_hr.Modules.{is_module_enabled}
use nafas_hr.Modules.Laws.{visibility_locked}
use nafas_hr.Delivery.Enqueue.{
  is_outbound, is_finalized_self, recipient_for, delivery_rows, outbound_rows,
}

-- A row that waits for the user's own address, on a channel that the user has asked for.
pub record IsAddressed (user : User) (id : ℕ) (row : NotificationDelivery) : Type 0 where
  pub for_notification : row.notification_id ≡ id
  pub to_user : recipient_for user row.channel ≡ some row.recipient
  pub waits : row.status ≡ pending
  pub untried : row.attempts ≡ 0

rows_by :
    (user : User) (id next : ℕ) (kind : DeliveryChannel) (kinds : List DeliveryChannel)
    (o : Option String)
    → recipient_for user kind ≡ o
    → ((n : ℕ) → All (IsAddressed user id) (delivery_rows user id n kinds))
    → All (IsAddressed user id) (delivery_rows user id next (kind ∷ kinds))
unfolding delivery_rows
rows_by user id next kind kinds none e rest = rw (e, All) (rest next)
rows_by user id next kind kinds (some a) e rest =
    rw (e, All)
      ((
        record { for_notification = refl; to_user = e; waits = refl; untried = refl },
        rest (next + 1),
      ))

delivery_rows-IsAddressed :
    (user : User) (id next : ℕ) (kinds : List DeliveryChannel)
    → All (IsAddressed user id) (delivery_rows user id next kinds)
unfolding delivery_rows
delivery_rows-IsAddressed user id next [] = tt
delivery_rows-IsAddressed user id next (kind ∷ kinds) =
    rows_by user id next kind kinds (recipient_for user kind) refl
      (λ n. delivery_rows-IsAddressed user id n kinds)

All-unless :
    (P : NotificationDelivery → Type 0) (b : Bool) (rows : List NotificationDelivery)
    → All P rows
    → All P (if b then [] else rows)
All-unless P true rows h = tt
All-unless P false rows h = h

All-when :
    (P : NotificationDelivery → Type 0) (b : Bool) (rows : List NotificationDelivery)
    → All P rows
    → All P (if b then rows else [])
All-when P true rows h = h
All-when P false rows h = tt

-- The rows for the user, where one is found.
abbrev rows_of : Env → Notification → Db → Option User → List NotificationDelivery
rows_of env n db none = []
rows_of env n db (some user) =
    if user.is_active then delivery_rows user n.id db.next_id env.channels else []

found_rows :
    (env : Env) (n : Notification) (db : Db) (u : User) (o : Option User)
    → o ≡ some u
    → All (IsAddressed u n.id) (rows_of env n db o)
found_rows env n db u o e =
    rw (e, All)
      (All-when (IsAddressed u n.id) u.is_active (delivery_rows u n.id db.next_id env.channels)
        (delivery_rows-IsAddressed u n.id db.next_id env.channels))

-- Every row that a notification adds to the outbox waits for the notified user's own address, on a
-- channel that the user has asked for.
outbound_rows-IsAddressed :
    (env : Env) (n : Notification) (db : Db) (u : User)
    → first (λ x. x.id == n.user_id) db.users ≡ some u
    → All (IsAddressed u n.id) (outbound_rows env n db)
unfolding outbound_rows
outbound_rows-IsAddressed env n db u found =
    let o = first (λ (x : User). x.id == n.user_id) db.users in
    let hidden =
      is_finalized_self n.type_ && not (is_module_enabled db "employee_evaluation_visibility") in
    All-unless (IsAddressed u n.id) (not (is_outbound n.type_))
      (if hidden then [] else rows_of env n db o)
      (All-unless (IsAddressed u n.id) hidden (rows_of env n db o) (found_rows env n db u o found))

-- Nothing about the result of an evaluation goes out to the person whom it is about, whatever the
-- table of modules holds.
pub result_never_goes_out :
    (env : Env) (n : Notification) (db : Db)
    → is_finalized_self n.type_ ≡ true
    → outbound_rows env n db ≡ []
unfolding outbound_rows is_outbound
result_never_goes_out env n db h = ground (arith, visibility_locked db)
