-- ===== src/Scheme/Editor.antt =====
-- backend/app/api/routers/scoring_schemes.py: a draft of new rules is made, brought into force or
-- thrown away, by those who hold the capability for it.
use package.text.Mathlib.Text.{◌==◌ as str_eq}
use nafas_hr.Prelude.{
  ℕ, ◌+◌, ◌==◌, ◌&&◌, Bool, true, false, not, Option, none, some, List, [], ◌∷◌, ◌++◌, String, map,
  select, any, elem, length, leb, ltb, if◌then◌else◌,
}
use nafas_hr.Model.Enums.{
  SchemeStatus, draft_scheme, Capability, manage_users, manage_capabilities, manage_scoring,
  manage_integrations, view_audit_log, manage_modules, view_diagnostics, manage_personnel,
}
use nafas_hr.Model.Values.{
  Env, num, null, text, Json, Detail, http, not_found, forbidden, scheme_not_valid,
  scheme_not_draft,
}
use nafas_hr.Model.Tables.{CurrentUser, ScoringScheme}
use nafas_hr.Model.Store.{Db}
use nafas_hr.Web.{Exec, pure, raise_if, or_raise, gets, modify, ◌>>=◌, ◌>>◌}
use nafas_hr.Audit.{log_event}
use nafas_hr.Scheme.{activate, scheme_by_id, active_scheme as scheme_in_force}

-- `Capability.value`.
abbrev capability_value : Capability → String
capability_value manage_users = "manage_users"
capability_value manage_capabilities = "manage_capabilities"
capability_value manage_scoring = "manage_scoring"
capability_value manage_integrations = "manage_integrations"
capability_value view_audit_log = "view_audit_log"
capability_value manage_modules = "manage_modules"
capability_value view_diagnostics = "view_diagnostics"
capability_value manage_personnel = "manage_personnel"

-- `capabilities_of`.
unfoldable pub capabilities_of : Db → ℕ → List Capability
capabilities_of db user_id =
    map (λ row. row.capability) (select (λ row. row.user_id == user_id) db.capabilities)

-- `require_capability`, for one capability.
unfoldable pub require_capability : Capability → CurrentUser → Exec Db (Unit {0})
require_capability c user = do
  held ← gets (λ db. capabilities_of db user.id)
  raise_if (not (any (λ h. str_eq (capability_value h) (capability_value c)) held))
      (http 403 forbidden)

-- `SchemeInput`. A float of it is one of the decimals that its column takes.
pub record SchemeInput : Type 0 where
  pub name : String
  pub general_section_weight : ℕ
  pub specialized_section_weight : ℕ
  pub evidence_required_scores : List ℕ
  pub evidence_min_words : ℕ
  pub evidence_max_words : ℕ
  pub bonus_max_points : ℕ
  pub improvement_plan_max_pct : ℕ
  pub thresholds : List (ℕ × String)
  pub indicator_weights : List (ℕ × ℕ)

abbrev all_of : {A : Type 0} → (A → Bool) → List A → Bool
all_of test xs = not (any (λ x. not (test x)) xs)

abbrev all_differ : List ℕ → Bool
all_differ [] = true
all_differ (x ∷ xs) = not (elem x xs) && all_differ xs

-- The limits rise from band to band, from above `low`, and the last one is above 100 percent.
unfoldable pub rises_from : ℕ → List (ℕ × String) → Bool
rises_from low [] = ltb 10000 low
rises_from low ((upper, label) ∷ bands) = ltb low upper && rises_from upper bands

-- What `SchemeInput` asks of its fields, and its `_check`.
unfoldable pub is_valid_scheme : SchemeInput → Bool
is_valid_scheme p =
    ((p.general_section_weight + p.specialized_section_weight) == 1000)
    && all_of (λ s. leb 1 s && leb s 5) p.evidence_required_scores
    && all_differ p.evidence_required_scores
    && leb p.evidence_min_words 200
    && leb 1 p.evidence_max_words
    && leb p.evidence_max_words 1000
    && leb p.evidence_min_words p.evidence_max_words
    && leb p.bonus_max_points 2000
    && leb p.improvement_plan_max_pct 10000
    && leb (length p.thresholds) 8
    && all_of (λ b. leb b.0 100000) p.thresholds
    && rises_from 0 p.thresholds
    && all_of (λ w. ltb 0 w.1) p.indicator_weights

-- `next_version`.
unfoldable pub next_version : List ScoringScheme → ℕ
next_version schemes = highest schemes + 1
  where
    highest : List ScoringScheme → ℕ
    highest [] = 0
    highest (s ∷ ss) = let rest = highest ss in if leb rest s.version then s.version else rest

-- The draft that `create_scheme` adds.
unfoldable pub new_scheme : SchemeInput → CurrentUser → Db → ScoringScheme
new_scheme payload user db = record {
  id = db.next_id;
  version = next_version db.schemes;
  name = payload.name;
  status = draft_scheme;
  general_section_weight = payload.general_section_weight;
  specialized_section_weight = payload.specialized_section_weight;
  evidence_required_scores = payload.evidence_required_scores;
  evidence_min_words = payload.evidence_min_words;
  evidence_max_words = payload.evidence_max_words;
  bonus_max_points = payload.bonus_max_points;
  improvement_plan_max_pct = payload.improvement_plan_max_pct;
  thresholds = payload.thresholds;
  indicator_weights = payload.indicator_weights;
  created_by_user_id = some user.id;
  activated_by_user_id = none;
  activated_at = none;
  retired_at = none;
}

abbrev version_and_name : ScoringScheme → Detail
version_and_name s = ("version", num s.version) ∷ ("name", text s.name) ∷ []

-- `create_scheme`.
unfoldable pub create_scheme : Env → SchemeInput → CurrentUser → Exec Db ScoringScheme
create_scheme env payload user = do
  require_capability manage_scoring user
  raise_if (not (is_valid_scheme payload)) (http 422 scheme_not_valid)
  s ← gets (new_scheme payload user)
  modify (λ db. record db { schemes = db.schemes ++ (s ∷ []); next_id = db.next_id + 1 })
  modify (log_event env user.id "scoring_scheme_drafted" none none (some (version_and_name s)))
  pure s

unfoldable pub is_draft_scheme : SchemeStatus → Bool
is_draft_scheme draft_scheme = true
is_draft_scheme _ = false

abbrev version_of : Option ScoringScheme → Option Detail
version_of none = none
version_of (some s) = some (("version", num s.version) ∷ [])

abbrev drafter_of : Option ℕ → Json
drafter_of none = null
drafter_of (some id) = num id

-- `activate_scheme`.
unfoldable pub activate_scheme : Env → ℕ → CurrentUser → Exec Db (Unit {0})
activate_scheme env id user = do
  require_capability manage_scoring user
  s ← or_raise (← gets (scheme_by_id id)) (http 404 not_found)
  raise_if (not (is_draft_scheme s.status)) (http 400 scheme_not_draft)
  previous ← gets scheme_in_force
  activate env s user.id
  modify (
      log_event env user.id "scoring_scheme_activated" none (version_of previous) (
        some
          (version_and_name s ++ (("drafted_by_user_id", drafter_of s.created_by_user_id) ∷ []))))

-- `delete_draft`.
unfoldable pub delete_draft : Env → ℕ → CurrentUser → Exec Db (Unit {0})
delete_draft env id user = do
  require_capability manage_scoring user
  s ← or_raise (← gets (scheme_by_id id)) (http 404 not_found)
  raise_if (not (is_draft_scheme s.status)) (http 400 scheme_not_draft)
  modify
      (log_event env user.id "scoring_scheme_draft_deleted" none (some (version_and_name s)) none)
  modify (λ db. record db { schemes = select (λ t. not (t.id == id)) db.schemes })
