-- ===== src/Framework/Tests.antt =====
-- Versions of the questions, and a record that keeps its own.
use nafas_hr.Prelude.{inl, none, ◌≡◌, ◌≤◌, refl, some, [], ◌∷◌, first, ◌==◌}
use nafas_hr.Samples.{company, record_at, only_framework, one_score}
use nafas_hr.Model.Enums.{draft}
use nafas_hr.Model.Tables.{IndicatorFramework}
use nafas_hr.Model.Store.{Db}
use nafas_hr.Framework.{rebind_untouched_open_records, impact_of_membership_change}
use nafas_hr.Framework.Rebinding.{scored, rebind_keeps_started}

abbrev newer : IndicatorFramework
newer = record only_framework { id = 21; version = 2 }

-- The record is open and its one score is saved.
abbrev one_draft : Db
one_draft = company (record_at draft none ∷ [])

keeps_started_example :
    (first (λ x. x.id == 30) (rebind_untouched_open_records newer one_draft).1.evaluations
      ≡ some (record_at draft none))
    × ((rebind_untouched_open_records newer one_draft).0
        ≤ (impact_of_membership_change one_draft).1)
keeps_started_example =
    rebind_keeps_started newer one_draft 30 {r = record_at draft none} refl
      (scored one_score (inl refl) refl)
