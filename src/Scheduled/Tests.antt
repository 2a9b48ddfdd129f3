-- ===== src/Scheduled/Tests.antt =====
-- The theorems about the sweeps, on the small company.
use nafas_hr.Prelude.{◌≡◌, ◌&&◌, not, any, none, some, [], ◌∷◌}
use nafas_hr.Model.Enums.{hr_approved}
use nafas_hr.Model.Values.{Env, is_ok}
use nafas_hr.Model.Evaluation.{Evaluation}
use nafas_hr.Samples.{monday, company, record_at}
use nafas_hr.Scheduled.{SweepSettings, is_stalled, run_sla_sweep, run_contract_expiry_sweep}
use nafas_hr.Scheduled.Owners.{lacks_owner, run_sla_sweep-is_ok}
use nafas_hr.Scheduled.Repeat.{expiry_sweep_again}

abbrev usual : SweepSettings
usual = record {
  contract_expiry_alert_days = 30;
  notification_dedup_days = 7;
  sla_reminder_days = 3;
}

-- A record that human resources passed on long ago, in a chain with no deputy.
abbrev ownerless : Evaluation
ownerless = record (record_at hr_approved (some 6000)) { deputy_user_id = none }

abbrev later : Env
later = record monday { now = 900000; today = 390 }

sla_example :
    is_ok (run_sla_sweep usual later (company (ownerless ∷ [])))
    ≡ not (any (λ r. is_stalled usual later r && lacks_owner r) (ownerless ∷ []))
sla_example = run_sla_sweep-is_ok usual later (company (ownerless ∷ []))

expiry_example :
    run_contract_expiry_sweep usual later (run_contract_expiry_sweep usual later (company [])).1
    ≡ (0, (run_contract_expiry_sweep usual later (company [])).1)
expiry_example = expiry_sweep_again usual later (company [])
