-- ===== src/Scheme/Activation.antt =====
-- backend/app/services/scoring_scheme.py: one scheme is active after an activation, its maker did
-- not activate it, and the rules of a stamped record stay.
use mathlib.Core.Path.{subst}
use nafas_hr.Prelude.{
  ◌⊎◌, inl, inr, sym, ap, ◌∙◌, ℕ, ◌+◌, ◌≡◌, ◌≢◌, ◌≤◌, refl, true, false, Option, some, List, [],
  ◌∷◌, arith, All, ◌==◌, first, if◌then◌else◌,
}
use nafas_hr.Model.Values.{Env, ok}
use nafas_hr.Model.Evaluation.{Evaluation}
use nafas_hr.Model.Tables.{ScoringScheme}
use nafas_hr.Model.Store.{Db}
use nafas_hr.Scheme.{
  Rules, activate, retire_active, set_active, is_active, scheme_by_id, rules_for_record, rules_from,
  rules_or, current_rules,
}

-- No two rows have one id.
abbrev pub DistinctIds : List ScoringScheme → Type 0
DistinctIds [] = Unit
DistinctIds (s ∷ ss) = All (λ t. t.id ≢ s.id) ss × DistinctIds ss

abbrev pub active_count : List ScoringScheme → ℕ
active_count [] = 0
active_count (s ∷ ss) = (if is_active s.status then 1 else 0) + active_count ss

abbrev pub HasId : ℕ → List ScoringScheme → Type 0
HasId id [] = ⊥
HasId id (s ∷ ss) = (s.id ≡ id) ⊎ HasId id ss

retire_active-count :
    (now : ℕ) (ss : List ScoringScheme)
    → active_count ss ≤ 1
    → active_count (retire_active now ss) ≡ 0
unfolding retire_active
retire_active-count now [] h = refl
retire_active-count now (s ∷ ss) h = ground (arith, retire_active-count now ss)

-- Ids are as they were.
retire_active-All-ne :
    (now k : ℕ) (ss : List ScoringScheme)
    → All (λ t. t.id ≢ k) ss
    → All (λ t. t.id ≢ k) (retire_active now ss)
unfolding retire_active
retire_active-All-ne now k [] h = tt
retire_active-All-ne now k (s ∷ ss) h = ground (arith, retire_active-All-ne now k ss h.1)

retire_active-DistinctIds :
    (now : ℕ) (ss : List ScoringScheme) → DistinctIds ss → DistinctIds (retire_active now ss)
unfolding retire_active
retire_active-DistinctIds now [] h = tt
retire_active-DistinctIds now (s ∷ ss) h =
    ground (arith, retire_active-DistinctIds now ss h.1, retire_active-All-ne now s.id ss h.0)

retire_active-HasId :
    (now id : ℕ) (ss : List ScoringScheme) → HasId id ss → HasId id (retire_active now ss)
unfolding retire_active
retire_active-HasId now id [] h = h
retire_active-HasId now id (s ∷ ss) h = ground (arith, retire_active-HasId now id ss)

set_active-none :
    (now actor id : ℕ) (ss : List ScoringScheme)
    → All (λ t. t.id ≢ id) ss
    → active_count (set_active now actor id ss) ≡ active_count ss
unfolding set_active
set_active-none now actor id [] h = refl
set_active-none now actor id (s ∷ ss) h = ground (arith, set_active-none now actor id ss h.1)

HasId-ne : (k id : ℕ) (ss : List ScoringScheme) → All (λ t. t.id ≢ k) ss → HasId id ss → k ≢ id
HasId-ne k id [] h i = absurd i
HasId-ne k id (s ∷ ss) h (inl e) = λ p. h.0 (e ∙ sym p)
HasId-ne k id (s ∷ ss) h (inr i) = HasId-ne k id ss h.1 i

set_active-count :
    (now actor id : ℕ) (ss : List ScoringScheme)
    → DistinctIds ss
    → HasId id ss
    → active_count ss ≡ 0
    → active_count (set_active now actor id ss) ≡ 1
unfolding set_active
set_active-count now actor id [] d h z = absurd h
set_active-count now actor id (s ∷ ss) d (inl e) z =
    let here : (s.id == id) ≡ true = ground arith in
    rw here (
      omega (arith, z, set_active-none now actor id ss (subst (λ k. All (λ t. t.id ≢ k) ss) e d.0)))
set_active-count now actor id (s ∷ ss) d (inr h) z =
    let ne = HasId-ne s.id id ss d.0 h in
    let away : (s.id == id) ≡ false = ground arith in
    rw away (ground (arith, set_active-count now actor id ss d.1 h))

-- After an activation that goes through, exactly one scheme is active, provided that at most one
-- was, and the user who activated it is not the one who made it.
pub activate_one_active :
    (env : Env) (scheme : ScoringScheme) (actor : ℕ) (db : Db) {db' : Db}
    → DistinctIds db.schemes
    → HasId scheme.id db.schemes
    → active_count db.schemes ≤ 1
    → activate env scheme actor db ≡ ok (tt, db')
    → (active_count db'.schemes ≡ 1) × (scheme.created_by_user_id ≢ some actor)
unfolding activate
activate_one_active env scheme actor db d has few h = ground (
  arith,
  set_active-count env.now actor scheme.id (retire_active env.now db.schemes)
      (retire_active-DistinctIds env.now db.schemes d)
      (retire_active-HasId env.now scheme.id db.schemes has)
      (retire_active-count env.now db.schemes few),
)

-- Rules do not change with the status of a scheme.
retire_active-rules :
    (now k : ℕ) (rules : Rules) (ss : List ScoringScheme)
    → rules_or (first (λ t. t.id == k) (retire_active now ss)) rules
      ≡ rules_or (first (λ t. t.id == k) ss) rules
unfolding retire_active rules_or rules_from
retire_active-rules now k rules [] = refl
retire_active-rules now k rules (s ∷ ss) = ground (arith, retire_active-rules now k rules ss)

set_active-rules :
    (now actor id k : ℕ) (rules : Rules) (ss : List ScoringScheme)
    → rules_or (first (λ t. t.id == k) (set_active now actor id ss)) rules
      ≡ rules_or (first (λ t. t.id == k) ss) rules
unfolding set_active rules_or rules_from
set_active-rules now actor id k rules [] = refl
set_active-rules now actor id k rules (s ∷ ss) =
    ground (arith, set_active-rules now actor id k rules ss)

rules_or_found :
    (o : Option ScoringScheme) (a b : Rules) {s : ScoringScheme}
    → o ≡ some s
    → rules_or o a ≡ rules_or o b
unfolding rules_or
rules_or_found o a b e = ground arith

activate-schemes :
    (env : Env) (scheme : ScoringScheme) (actor : ℕ) (db : Db) {db' : Db}
    → activate env scheme actor db ≡ ok (tt, db')
    → db'.schemes ≡ set_active env.now actor scheme.id (retire_active env.now db.schemes)
unfolding activate
activate-schemes env scheme actor db h = ground arith

pub rules_by_id :
    (db : Db) (r : Evaluation) {k : ℕ}
    → r.scoring_scheme_id ≡ some k
    → rules_for_record db r ≡ rules_or (first (λ t. t.id == k) db.schemes) (current_rules db)
unfolding rules_for_record scheme_by_id
rules_by_id db r stamp = rw stamp refl

-- A record that is stamped with an existing version is scored by the same rules before and after
-- any other version comes into force.
pub activate_keeps_rules :
    (env : Env) (scheme : ScoringScheme) (actor : ℕ) (db : Db) (r : Evaluation) {db' : Db} {k : ℕ}
    {s : ScoringScheme}
    → r.scoring_scheme_id ≡ some k
    → scheme_by_id k db ≡ some s
    → activate env scheme actor db ≡ ok (tt, db')
    → rules_for_record db' r ≡ rules_for_record db r
unfolding scheme_by_id
activate_keeps_rules env scheme actor db r {db'} {k} {s} stamp found h =
    rules_by_id db' r stamp
    ∙ ap (λ ss. rules_or (first (λ t. t.id == k) ss) (current_rules db'))
        (activate-schemes env scheme actor db h)
    ∙ set_active-rules env.now actor scheme.id k (current_rules db')
        (retire_active env.now db.schemes)
    ∙ retire_active-rules env.now k (current_rules db') db.schemes
    ∙ rules_or_found (first (λ t. t.id == k) db.schemes) (current_rules db') (current_rules db)
        {s = s} found
    ∙ sym (rules_by_id db r stamp)
