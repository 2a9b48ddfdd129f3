-- ===== src/Modules/Laws.antt =====
-- backend/app/services/authorization.py: a locked module is off whatever its row says.
use nafas_hr.Prelude.{Bool, true, false, Option, none, some, ◌≡◌, refl, arith}
use nafas_hr.Model.Store.{Db}
use nafas_hr.Modules.{ModuleDef, module_state, is_module_enabled, stored_state}

pub module_state_locked :
    (m : ModuleDef) (stored : Option Bool) → m.locked ≡ true → module_state (some m) stored ≡ false
unfolding module_state
module_state_locked m none l = ground arith
module_state_locked m (some b) l = ground arith

-- The results are hidden from employees whatever the table of modules holds.
pub visibility_locked : (db : Db) → is_module_enabled db "employee_evaluation_visibility" ≡ false
unfolding is_module_enabled
visibility_locked db =
    module_state_locked
      (record { key = "employee_evaluation_visibility"; default_enabled = false; locked = true })
      (stored_state "employee_evaluation_visibility" db.modules) refl
