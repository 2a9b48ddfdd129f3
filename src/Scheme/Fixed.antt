-- ===== src/Scheme/Fixed.antt =====
-- A version that is in force or retired is fixed: no request of the editor of schemes changes the
-- rules of a record that is stamped with it.
use nafas_hr.Prelude.{
  ◌≡◌, ap, ◌∙◌, ℕ, ◌==◌, true, false, not, Option, none, some, List, [], ◌∷◌, ◌++◌, first, select,
  Option-cases, inl, inr, arith, if◌then◌else◌,
}
use nafas_hr.Model.Values.{Env, ok}
use nafas_hr.Model.Evaluation.{Evaluation}
use nafas_hr.Model.Tables.{CurrentUser, ScoringScheme}
use nafas_hr.Model.Store.{Db}
use nafas_hr.Web.{left_by, left_by-cases}
use nafas_hr.Audit.{log_event}
use nafas_hr.Scheme.{
  Rules, activate, retire_active, set_active, scheme_by_id, rules_for_record, rules_from, rules_or,
  current_rules,
}
use nafas_hr.Scheme.Activation.{rules_by_id}
use nafas_hr.Scheme.Editor.{
  SchemeInput, new_scheme, create_scheme, is_draft_scheme, activate_scheme, delete_draft,
  require_capability,
}

-- The rules of the version with this id, where it is no draft.
unfoldable pub fixed_rules : ℕ → List ScoringScheme → Option Rules
fixed_rules k [] = none
fixed_rules k (s ∷ ss) =
    if s.id == k
    then if is_draft_scheme s.status then none else some (rules_from s)
    else fixed_rules k ss

-- A request of the editor.
pub data SchemeDeed : Type 0 where
  create_deed : SchemeInput → SchemeDeed
  activate_deed : ℕ → SchemeDeed
  delete_deed : ℕ → SchemeDeed

abbrev pub do_scheme : Env → CurrentUser → SchemeDeed → Db → Db
do_scheme env user (create_deed payload) db = left_by (create_scheme env payload user db) db
do_scheme env user (activate_deed id) db = left_by (activate_scheme env id user db) db
do_scheme env user (delete_deed id) db = left_by (delete_draft env id user db) db

abbrev pub do_schemes : List (Env × CurrentUser × SchemeDeed) → Db → Db
do_schemes [] db = db
do_schemes ((env, user, d) ∷ ds) db = do_schemes ds (do_scheme env user d db)

module _ (k : ℕ) (rules : Rules) where
  fixed_rules-append :
      (ss ts : List ScoringScheme)
      → fixed_rules k ss ≡ some rules
      → fixed_rules k (ss ++ ts) ≡ some rules
  unfolding fixed_rules
  fixed_rules-append [] ts h = ground arith
  fixed_rules-append (s ∷ ss) ts h = ground (arith, fixed_rules-append ss ts)

  fixed_rules-retire :
      (now : ℕ) (ss : List ScoringScheme)
      → fixed_rules k ss ≡ some rules
      → fixed_rules k (retire_active now ss) ≡ some rules
  unfolding fixed_rules retire_active is_draft_scheme rules_from
  fixed_rules-retire now [] h = h
  fixed_rules-retire now (s ∷ ss) h = ground (arith, fixed_rules-retire now ss)

  fixed_rules-activate :
      (now actor id : ℕ) (ss : List ScoringScheme)
      → fixed_rules k ss ≡ some rules
      → fixed_rules k (set_active now actor id ss) ≡ some rules
  unfolding fixed_rules set_active is_draft_scheme rules_from
  fixed_rules-activate now actor id [] h = h
  fixed_rules-activate now actor id (s ∷ ss) h =
      ground (arith, fixed_rules-activate now actor id ss)

  -- A draft has another id than a version that is fixed.
  draft_is_another :
      (id : ℕ) (ss : List ScoringScheme) {s : ScoringScheme}
      → first (λ t. t.id == id) ss ≡ some s
      → is_draft_scheme s.status ≡ true
      → fixed_rules k ss ≡ some rules
      → (id == k) ≡ false
  unfolding fixed_rules
  draft_is_another id [] found draft h = ground arith
  draft_is_another id (t ∷ ts) {s} found draft h = ground (arith, draft_is_another id ts {s = s})

  fixed_rules-remove :
      (id : ℕ) (ss : List ScoringScheme)
      → (id == k) ≡ false
      → fixed_rules k ss ≡ some rules
      → fixed_rules k (select (λ s. not (s.id == id)) ss) ≡ some rules
  unfolding fixed_rules
  fixed_rules-remove id [] other h = h
  fixed_rules-remove id (s ∷ ss) other h = ground (arith, fixed_rules-remove id ss)

  rules_or_fixed :
      (ss : List ScoringScheme) (other : Rules)
      → fixed_rules k ss ≡ some rules
      → rules_or (first (λ s. s.id == k) ss) other ≡ rules
  unfolding fixed_rules rules_or
  rules_or_fixed [] other h = ground arith
  rules_or_fixed (s ∷ ss) other h = ground (arith, rules_or_fixed ss other)

  abbrev Fixes : Db → Type 0
  Fixes db = fixed_rules k db.schemes ≡ some rules

  create_scheme-Fixes :
      (env : Env) (payload : SchemeInput) (user : CurrentUser) (db db' : Db) (s : ScoringScheme)
      → Fixes db
      → create_scheme env payload user db ≡ ok (s, db')
      → Fixes db'
  unfolding create_scheme log_event require_capability
  create_scheme-Fixes env payload user db db' s before h =
      let e : db'.schemes ≡ db.schemes ++ (new_scheme payload user db ∷ []) = ground arith in
      ap (fixed_rules k) e ∙ fixed_rules-append db.schemes (new_scheme payload user db ∷ []) before

  activate_scheme-Fixes :
      (env : Env) (id : ℕ) (user : CurrentUser) (db db' : Db) (u : Unit {0})
      → Fixes db
      → activate_scheme env id user db ≡ ok (u, db')
      → Fixes db'
  unfolding activate_scheme activate log_event require_capability
  activate_scheme-Fixes env id user db db' u before h = elim (Option-cases (scheme_by_id id db)) [
    | inl e ↦ ground arith
    | inr (s, e) ↦
        let after : db'.schemes
            ≡ set_active env.now user.id s.id (retire_active env.now db.schemes) =
          ground arith in
        ap (fixed_rules k) after
        ∙ fixed_rules-activate env.now user.id s.id (retire_active env.now db.schemes)
            (fixed_rules-retire env.now db.schemes before)
  ]

  delete_draft-Fixes :
      (env : Env) (id : ℕ) (user : CurrentUser) (db db' : Db) (u : Unit {0})
      → Fixes db
      → delete_draft env id user db ≡ ok (u, db')
      → Fixes db'
  unfolding delete_draft log_event require_capability scheme_by_id
  delete_draft-Fixes env id user db db' u before h = elim (Option-cases (scheme_by_id id db)) [
    | inl e ↦ ground arith
    | inr (s, e) ↦
        let after : db'.schemes ≡ select (λ t. not (t.id == id)) db.schemes = ground arith in
        let draft : is_draft_scheme s.status ≡ true = ground arith in
        ap (fixed_rules k) after
        ∙ fixed_rules-remove id db.schemes (draft_is_another id db.schemes e draft before) before
  ]

  do_scheme-Fixes :
      (env : Env) (user : CurrentUser) (d : SchemeDeed) (db : Db)
      → Fixes db
      → Fixes (do_scheme env user d db)
  do_scheme-Fixes env user (create_deed payload) db before =
      left_by-cases Fixes (create_scheme env payload user db) db before
        (λ s db' h. create_scheme-Fixes env payload user db db' s before h)
  do_scheme-Fixes env user (activate_deed id) db before =
      left_by-cases Fixes (activate_scheme env id user db) db before
        (λ u db' h. activate_scheme-Fixes env id user db db' u before h)
  do_scheme-Fixes env user (delete_deed id) db before =
      left_by-cases Fixes (delete_draft env id user db) db before
        (λ u db' h. delete_draft-Fixes env id user db db' u before h)

  do_schemes-Fixes :
      (ds : List (Env × CurrentUser × SchemeDeed)) (db : Db) → Fixes db → Fixes (do_schemes ds db)
  do_schemes-Fixes [] db before = before
  do_schemes-Fixes ((env, user, d) ∷ ds) db before =
      do_schemes-Fixes ds (do_scheme env user d db) (do_scheme-Fixes env user d db before)

  rules_when_fixed :
      (db : Db) (r : Evaluation)
      → r.scoring_scheme_id ≡ some k
      → Fixes db
      → rules_for_record db r ≡ rules
  rules_when_fixed db r stamp fixed =
      rules_by_id db r stamp ∙ rules_or_fixed db.schemes (current_rules db) fixed

-- Whatever is asked of the editor of schemes, by whomever and in which order, answered or refused: a
-- record that is stamped with a version that is in force or retired has the same rules before and
-- after.
pub stamped_rules_stay :
    (ds : List (Env × CurrentUser × SchemeDeed)) (db : Db) (r : Evaluation) (k : ℕ) {rules : Rules}
    → r.scoring_scheme_id ≡ some k
    → fixed_rules k db.schemes ≡ some rules
    → (rules_for_record db r ≡ rules) × (rules_for_record (do_schemes ds db) r ≡ rules)
stamped_rules_stay ds db r k {rules} stamp fixed = (
  rules_when_fixed k rules db r stamp fixed,
  rules_when_fixed k rules (do_schemes ds db) r stamp (do_schemes-Fixes k rules ds db fixed),
)
