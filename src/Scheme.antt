-- ===== src/Scheme.antt =====
-- backend/app/services/scoring_scheme.py: the rules of scoring, their versions, and the activation
-- of a version.
pub mod Activation
pub mod Editor
pub mod Fixed
mod Tests
use nafas_hr.Prelude.{
  ℕ, ◌+◌, ◌==◌, Bool, true, false, ◌&&◌, not, Option, none, some, List, [], ◌∷◌, String, first,
  is_just, if◌then◌else◌,
}
use nafas_hr.Model.Enums.{SchemeStatus, active_scheme as active, retired_scheme, draft_scheme}
use nafas_hr.Model.Values.{Env, http, creator_may_not_activate}
use nafas_hr.Model.Evaluation.{Evaluation}
use nafas_hr.Model.Tables.{ScoringScheme}
use nafas_hr.Model.Store.{Db}
use nafas_hr.Web.{Exec, raise_if, modify, ◌>>=◌, ◌>>◌}

-- `Rules`. Weights are in thousandths, points and percentages in hundredths: the decimals of which
-- the code takes the floats.
pub record Rules : Type 0 where
  pub general_section_weight : ℕ
  pub specialized_section_weight : ℕ
  pub evidence_required_scores : List ℕ
  pub evidence_min_words : ℕ
  pub evidence_max_words : ℕ
  pub thresholds : List (ℕ × String)
  pub indicator_weights : List (ℕ × ℕ)
  pub version : Option ℕ
  pub bonus_max_points : ℕ
  pub improvement_plan_max_pct : ℕ

-- `LEGACY_RULES`, from backend/app/core/constants.py. The labels translate the Persian texts, since
-- right-to-left letters cannot stand here.
abbrev pub legacy_rules : Rules
legacy_rules = record {
  general_section_weight = 600;
  specialized_section_weight = 400;
  evidence_required_scores = 1 ∷ 5 ∷ [];
  evidence_min_words = 3;
  evidence_max_words = 40;
  thresholds =
      (6000, "no renewal")
      ∷ (7500, "conditional renewal")
      ∷ (9000, "standard renewal")
      ∷ (10100, "renewal with distinction")
      ∷ [];
  indicator_weights = [];
  version = none;
  bonus_max_points = 500;
  improvement_plan_max_pct = 7500;
}

-- `rules_from`.
unfoldable pub rules_from : ScoringScheme → Rules
rules_from s = record {
  general_section_weight = s.general_section_weight;
  specialized_section_weight = s.specialized_section_weight;
  evidence_required_scores = s.evidence_required_scores;
  evidence_min_words = s.evidence_min_words;
  evidence_max_words = s.evidence_max_words;
  thresholds = s.thresholds;
  indicator_weights = s.indicator_weights;
  version = some s.version;
  bonus_max_points = s.bonus_max_points;
  improvement_plan_max_pct = s.improvement_plan_max_pct;
}

abbrev pub is_active : SchemeStatus → Bool
is_active active = true
is_active _ = false

-- `active_scheme`.
unfoldable pub active_scheme : Db → Option ScoringScheme
active_scheme db = first (λ s. is_active s.status) db.schemes

unfoldable pub scheme_by_id : ℕ → Db → Option ScoringScheme
scheme_by_id id db = first (λ s. s.id == id) db.schemes

-- `current_rules`.
unfoldable pub current_rules : Db → Rules
current_rules db = elim (active_scheme db) [ none ↦ legacy_rules | some s ↦ rules_from s ]

unfoldable pub rules_or : Option ScoringScheme → Rules → Rules
rules_or none rules = rules
rules_or (some s) rules = rules_from s

-- `rules_for_record`: the rules stamped on the record first, then those in force.
unfoldable pub rules_for_record : Db → Evaluation → Rules
unfolding rules_or scheme_by_id
rules_for_record db r = elim r.scoring_scheme_id [
  | none ↦ current_rules db
  | some id ↦ rules_or (scheme_by_id id db) (current_rules db)
]

-- The scheme in force, the first that is active, retires.
unfoldable pub retire_active : ℕ → List ScoringScheme → List ScoringScheme
retire_active now [] = []
retire_active now (s ∷ ss) =
    if is_active s.status
    then record s { status = retired_scheme; retired_at = some now } ∷ ss
    else s ∷ retire_active now ss

unfoldable pub set_active : ℕ → ℕ → ℕ → List ScoringScheme → List ScoringScheme
set_active now actor id [] = []
set_active now actor id (s ∷ ss) =
    (if s.id == id
      then record s { status = active; activated_by_user_id = some actor; activated_at = some now }
      else s)
    ∷ set_active now actor id ss

-- `activate`: whoever made a scheme may not activate it.
unfoldable pub activate : Env → ScoringScheme → ℕ → Exec Db (Unit {0})
activate env scheme actor = do
  raise_if (is_just actor scheme.created_by_user_id) (http 403 creator_may_not_activate)
  modify (λ db. record db {
    schemes = set_active env.now actor scheme.id (retire_active env.now db.schemes);
  })
