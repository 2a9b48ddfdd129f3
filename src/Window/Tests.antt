-- ===== src/Window/Tests.antt =====
-- Deadlines of one record, with a period and without.
use nafas_hr.Prelude.{◌≡◌, refl, arith, true, false, some, none, []}
use nafas_hr.Samples.{monday, company, record_at}
use nafas_hr.Model.Enums.{draft}
use nafas_hr.Window.{period_end, record_accepts_entries}
use nafas_hr.Window.Deadline.{with_extension, extension_closes_unlimited}

closes_example :
    (record_accepts_entries monday (company []) (with_extension none (record_at draft none)) ≡ true)
    × (record_accepts_entries monday (company []) (with_extension (some 5) (record_at draft none))
        ≡ false)
unfolding period_end
closes_example =
    extension_closes_unlimited monday (company []) (record_at draft none) 5 refl (omega arith)
