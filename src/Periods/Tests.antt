-- ===== src/Periods/Tests.antt =====
-- Requests about periods, on the small company.
use nafas_hr.Prelude.{true, [], ◌∷◌, arith, List}
use nafas_hr.Model.Values.{Env}
use nafas_hr.Model.Tables.{CurrentUser}
use nafas_hr.Samples.{monday, company, hr_user, ceo_user}
use nafas_hr.Periods.{PeriodCreate}
use nafas_hr.Periods.Rows.{open_periods}
use nafas_hr.Periods.Sound.{
  PeriodDeed, create_deed, close_deed, delete_deed, do_periods, PeriodsAreSound, do_periods-Sound,
}

abbrev spring : PeriodCreate
spring = record { name = "Spring"; starts_on = 1; ends_on = 90 }

-- The second request is refused, and so is that of the chief executive.
abbrev deeds : List (Env × CurrentUser × PeriodDeed)
deeds =
    (monday, hr_user, create_deed spring)
    ∷ (monday, hr_user, create_deed spring)
    ∷ (monday, ceo_user, close_deed 100 true)
    ∷ (monday, hr_user, close_deed 100 true)
    ∷ (monday, hr_user, delete_deed 100)
    ∷ []

periods_example : PeriodsAreSound (do_periods deeds (company []))
unfolding open_periods
periods_example = do_periods-Sound deeds (company []) (omega arith, tt)
