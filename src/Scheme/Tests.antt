-- ===== src/Scheme/Tests.antt =====
-- A scheme in force and a draft that is brought into force.
use nafas_hr.Prelude.{map, ℕ, List, inl, inr, ◌≡◌, ◌≢◌, refl, arith, some, none, [], ◌∷◌}
use nafas_hr.Samples.{monday, company, hr_user, ceo_user, record_at}
use nafas_hr.Model.Enums.{
  SchemeStatus, draft_scheme, active_scheme, retired_scheme, finalized, manage_scoring,
}
use nafas_hr.Model.Values.{Env, Result, ok, err}
use nafas_hr.Model.Evaluation.{Evaluation}
use nafas_hr.Model.Tables.{ScoringScheme, CurrentUser}
use nafas_hr.Model.Store.{Db}
use nafas_hr.Scheme.{
  activate, scheme_by_id, retire_active, set_active, active_scheme as scheme_in_force, rules_from,
  rules_for_record,
}
use nafas_hr.Scheme.Editor.{
  SchemeInput, is_draft_scheme, create_scheme, activate_scheme, delete_draft, require_capability,
  capabilities_of, is_valid_scheme, rises_from, new_scheme, next_version,
}
use nafas_hr.Audit.{log_event}
use nafas_hr.Scheme.Fixed.{
  fixed_rules, SchemeDeed, create_deed, activate_deed, delete_deed, do_schemes, stamped_rules_stay,
}
use nafas_hr.Scheme.Activation.{active_count, activate_one_active}

abbrev scheme_with : ℕ → SchemeStatus → ScoringScheme
scheme_with id status = record {
  id = id;
  version = id;
  name = "scheme";
  status = status;
  general_section_weight = 600;
  specialized_section_weight = 400;
  evidence_required_scores = 1 ∷ 5 ∷ [];
  evidence_min_words = 5;
  evidence_max_words = 40;
  bonus_max_points = 500;
  improvement_plan_max_pct = 7500;
  thresholds = (10000, "keep") ∷ [];
  indicator_weights = [];
  created_by_user_id = some 3;
  activated_by_user_id = none;
  activated_at = none;
  retired_at = none;
}

abbrev schemes_db : Db
schemes_db =
    let base = company [] in
    record base { schemes = scheme_with 1 active_scheme ∷ scheme_with 2 draft_scheme ∷ [] }

abbrev db_after : Db → Result (Unit {0} × Db) → Db
db_after db (ok (u, db')) = db'
db_after db (err e) = db

abbrev activated : Db
activated = db_after schemes_db (activate monday (scheme_with 2 draft_scheme) 9 schemes_db)

activation_goes_through :
    activate monday (scheme_with 2 draft_scheme) 9 schemes_db ≡ ok (tt, activated)
unfolding activate
activation_goes_through = refl

one_active_example :
    (active_count activated.schemes ≡ 1)
    × ((scheme_with 2 draft_scheme).created_by_user_id ≢ some 9)
one_active_example =
    activate_one_active monday (scheme_with 2 draft_scheme) 9 schemes_db (ground arith)
      (inr (inl refl)) (ground arith) activation_goes_through

abbrev two_weights : SchemeInput
two_weights = record {
  name = "seventy to thirty";
  general_section_weight = 700;
  specialized_section_weight = 300;
  evidence_required_scores = 1 ∷ [];
  evidence_min_words = 3;
  evidence_max_words = 40;
  bonus_max_points = 500;
  improvement_plan_max_pct = 7500;
  thresholds = (7500, "no") ∷ (10100, "yes") ∷ [];
  indicator_weights = [];
}

-- A company in which two users may manage the rules.
abbrev managed : Db
managed = record schemes_db {
  capabilities =
      (record { user_id = 3; capability = manage_scoring })
      ∷ (record { user_id = 5; capability = manage_scoring })
      ∷ [];
}

-- A draft is made, which its maker does not bring into force; another does so with the draft of the
-- company, and the new draft is thrown away.
abbrev scheme_deeds : List (Env × CurrentUser × SchemeDeed)
scheme_deeds =
    (monday, hr_user, create_deed two_weights)
    ∷ (monday, hr_user, activate_deed 100)
    ∷ (monday, ceo_user, activate_deed 2)
    ∷ (monday, hr_user, delete_deed 100)
    ∷ []

abbrev stamped : Evaluation
stamped = let base = record_at finalized (some 8000) in record base { scoring_scheme_id = some 1 }

-- All four requests are answered as is told: two versions are left, the first of them retired.
deeds_are_answered :
    map (λ s. s.status) (do_schemes scheme_deeds managed).schemes
    ≡ retired_scheme ∷ active_scheme ∷ []
unfolding create_scheme activate_scheme delete_draft activate require_capability capabilities_of
    is_valid_scheme rises_from scheme_by_id retire_active set_active log_event is_draft_scheme
    new_scheme next_version scheme_in_force
deeds_are_answered = refl

stamped_rules_example :
    (rules_for_record managed stamped ≡ rules_from (scheme_with 1 active_scheme))
    × (rules_for_record (do_schemes scheme_deeds managed) stamped
        ≡ rules_from (scheme_with 1 active_scheme))
unfolding fixed_rules is_draft_scheme
stamped_rules_example = stamped_rules_stay scheme_deeds managed stamped 1 refl refl
