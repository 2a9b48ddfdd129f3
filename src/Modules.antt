-- ===== src/Modules.antt =====
-- backend/app/core/modules.py and `is_module_enabled` of backend/app/services/authorization.py: the
-- switches of the optional parts.
pub mod Laws
use text.Mathlib.Text.{◌==◌ as str_eq}
use nafas_hr.Prelude.{
  Bool, true, false, Option, none, some, List, [], ◌∷◌, String, first, if◌then◌else◌,
}
use nafas_hr.Model.Tables.{ModuleSetting}
use nafas_hr.Model.Store.{Db}

-- `ModuleDef`, without the texts that are shown.
pub record ModuleDef : Type 0 where
  pub key : String
  pub default_enabled : Bool
  pub locked : Bool

-- `MODULES`.
abbrev pub all_modules : List ModuleDef
all_modules =
    record { key = "periods"; default_enabled = true; locked = false }
    ∷ record { key = "improvement_plans"; default_enabled = true; locked = false }
    ∷ record { key = "self_assessment"; default_enabled = true; locked = false }
    ∷ record { key = "objections"; default_enabled = false; locked = true }
    ∷ record { key = "employee_overview_cards"; default_enabled = false; locked = true }
    ∷ record { key = "employee_evaluation_visibility"; default_enabled = false; locked = true }
    ∷ record { key = "employee_result_acknowledgement"; default_enabled = false; locked = true }
    ∷ record { key = "role_analytics"; default_enabled = true; locked = false }
    ∷ record { key = "outbound_notifications"; default_enabled = true; locked = false }
    ∷ []

-- `MODULES_BY_KEY.get(key)`.
unfoldable pub module_by_key : String → Option ModuleDef
module_by_key key = first (λ m. str_eq m.key key) all_modules

pub stored_state : String → List ModuleSetting → Option Bool
stored_state key [] = none
stored_state key (row ∷ rows) =
    if str_eq row.key key then some row.enabled else stored_state key rows

-- The answer for a known or unknown module, given the stored row.
pub module_state : Option ModuleDef → Option Bool → Bool
module_state none none = true
module_state none (some enabled) = enabled
module_state (some m) none = if m.locked then false else m.default_enabled
module_state (some m) (some enabled) = if m.locked then false else enabled

unfoldable pub is_module_enabled : Db → String → Bool
unfolding module_by_key stored_state module_state
is_module_enabled db key = module_state (module_by_key key) (stored_state key db.modules)
