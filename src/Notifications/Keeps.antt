-- ===== src/Notifications/Keeps.antt =====
-- What notifying leaves alone: whatever one notification keeps, all keep.
use nafas_hr.Prelude.{
  ◌≡◌, refl, ◌∙◌, ℕ, Option, List, [], ◌∷◌, dedup, Bool-cases, inl, inr, not, ◌&&◌,
}
use nafas_hr.Model.Values.{Env}
use nafas_hr.Model.Tables.{NotificationType, DedupKey}
use nafas_hr.Model.Store.{Db}
use nafas_hr.Delivery.Enqueue.{is_finalized_self}
use nafas_hr.Modules.{is_module_enabled}
use nafas_hr.Notifications.{notify_one, notify_all, notify}

module _ {X : Type 0} (f : Db → X) (env : Env)
    (one : (kind : NotificationType) (r : Option ℕ) (key : Option DedupKey) (id : ℕ) (db : Db)
      → f (notify_one env kind r key id db) ≡ f db) where
  pub notify_all-keeps :
      (kind : NotificationType) (r : Option ℕ) (ids : List ℕ) (db : Db)
      → f (notify_all env kind r ids db) ≡ f db
  unfolding notify_all
  notify_all-keeps kind r [] db = refl
  notify_all-keeps kind r (id ∷ ids) db =
      notify_all-keeps kind r ids (notify_one env kind r Option.none id db)
      ∙ one kind r Option.none id db

  pub notify-keeps :
      (ids : List ℕ) (kind : NotificationType) (r : Option ℕ) (db : Db)
      → f (notify env ids kind r db) ≡ f db
  unfolding notify
  notify-keeps ids kind r db =
      elim (Bool-cases
        (is_finalized_self kind && not (is_module_enabled db "employee_evaluation_visibility"))) [
          | inl e ↦ rw e refl
          | inr e ↦ rw e (notify_all-keeps kind r (dedup ids) db)
        ]
