-- ===== src/Periods/Rows.antt =====
-- Rows of periods: how many are open, and which records they serve.
use nafas_hr.Prelude.{
  ◌≡◌, refl, ap, ◌∙◌, ℕ, ◌+◌, ◌==◌, ◌≤◌, Bool, true, false, not, Option, none, some, List, [], ◌∷◌,
  All, first, select, length, is_some, is_just, arith, if◌then◌else◌,
}
use nafas_hr.Model.Evaluation.{Evaluation}
use nafas_hr.Model.Tables.{EvaluationPeriod}
use nafas_hr.Periods.{is_open_period, put_in}

unfoldable pub open_periods : List EvaluationPeriod → ℕ
open_periods [] = 0
open_periods (p ∷ ps) = (if is_open_period p.status then 1 else 0) + open_periods ps

-- The period of a record is one of these, where it has any.
abbrev pub is_known : Option ℕ → List EvaluationPeriod → Bool
is_known none ps = true
is_known (some n) ps = is_some (first (λ p. p.id == n) ps)

abbrev pub AllKnown : List EvaluationPeriod → List Evaluation → Type 0
AllKnown ps rs = All (λ r. is_known r.period_id ps ≡ true) rs

-- What the theorem is about, of the tables.
abbrev pub IsSound : List EvaluationPeriod → List Evaluation → Type 0
IsSound ps rs = (open_periods ps ≤ 1) × AllKnown ps rs

pub known-step :
    (ps qs : List EvaluationPeriod) (rs : List Evaluation)
    → ((n : ℕ) → is_known (some n) ps ≡ true → is_known (some n) qs ≡ true)
    → AllKnown ps rs
    → AllKnown qs rs
known-step ps qs [] more h = tt
known-step ps qs (r ∷ rs) more h = (known_one r.period_id h.0, known-step ps qs rs more h.1)
  where
    known_one : (o : Option ℕ) → is_known o ps ≡ true → is_known o qs ≡ true
    known_one none k = refl
    known_one (some n) k = more n k

pub none_open :
    (ps : List EvaluationPeriod)
    → first (λ p. is_open_period p.status) ps ≡ none
    → open_periods ps ≡ 0
unfolding open_periods
none_open [] h = refl
none_open (p ∷ ps) h = ground (arith, none_open ps)

pub put_in-known :
    (v : EvaluationPeriod) (ps : List EvaluationPeriod) (n : ℕ)
    → is_known (some n) ps ≡ true
    → is_known (some n) (put_in v ps) ≡ true
unfolding put_in
put_in-known v [] n h = h
put_in-known v (p ∷ ps) n h = ground (arith, put_in-known v ps n)

pub put_in-open :
    (v : EvaluationPeriod) (ps : List EvaluationPeriod) {p : EvaluationPeriod}
    → first (λ q. q.id == v.id) ps ≡ some p
    → (is_open_period v.status ≡ true → is_open_period p.status ≡ true)
    → open_periods (put_in v ps) ≤ open_periods ps
unfolding put_in open_periods
put_in-open v [] h k = ground arith
put_in-open v (q ∷ qs) {p} h k = ground (arith, put_in-open v qs {p = p})

pub removed-open :
    (n : ℕ) (ps : List EvaluationPeriod)
    → open_periods (select (λ q. not (q.id == n)) ps) ≤ open_periods ps
unfolding open_periods
removed-open n [] = omega arith
removed-open n (p ∷ ps) = ground (arith, removed-open n ps)

removed-first :
    (n m : ℕ) (ps : List EvaluationPeriod)
    → (n == m) ≡ false
    → first (λ p. p.id == m) (select (λ q. not (q.id == n)) ps) ≡ first (λ p. p.id == m) ps
removed-first n m [] d = refl
removed-first n m (p ∷ ps) d = ground (arith, removed-first n m ps d)

pub removed-known :
    (n : ℕ) (ps : List EvaluationPeriod) (rs : List Evaluation)
    → length (select (λ r. is_just n r.period_id) rs) ≡ 0
    → AllKnown ps rs
    → AllKnown (select (λ q. not (q.id == n)) ps) rs
removed-known n ps [] e h = tt
removed-known n ps (r ∷ rs) e h =
    (known_left r.period_id (ground arith) h.0, removed-known n ps rs (ground arith) h.1)
  where
    known_left :
        (o : Option ℕ)
        → is_just n o ≡ false
        → is_known o ps ≡ true
        → is_known o (select (λ q. not (q.id == n)) ps) ≡ true
    known_left none d k = refl
    known_left (some m) d k = ap is_some (removed-first n m ps d) ∙ k
