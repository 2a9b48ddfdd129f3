-- ===== src/Auth/Attempts/Locks.antt =====
-- When a user name gets locked: the row of a name through a run of failed logins.
use text.Mathlib.TextEquality.{eq_iff}
use text.Mathlib.TextPositions.{eq_refl}
use nafas_hr.Prelude.{
  ◌≡◌, refl, sym, ap, ◌∙◌, inl, inr, ℕ, ◌+◌, ◌≤◌, ◌<◌, true, false, none, some, List, [], ◌∷◌,
  String, length, leb, is_some, Bool-cases, Option-cases, arith,
}
use nafas_hr.Model.Tables.{LoginAttempt}
use nafas_hr.Auth.Attempts.{
  AuthSettings, minutes, attempt_of, locked_until, counted, lock_at_limit, put_attempt,
  record_failure, lock_in,
}

pub attempt_of-put_attempt :
    (a : LoginAttempt) (rows : List LoginAttempt) (u : String)
    → a.username ≡ u
    → attempt_of u (put_attempt a rows) ≡ some a
unfolding attempt_of put_attempt
attempt_of-put_attempt a [] u e = ground (arith, eq_refl u)
attempt_of-put_attempt a (b ∷ bs) u e = ground (arith, eq_refl u, attempt_of-put_attempt a bs u e)

-- The row that is found has the name.
pub attempt_of-name :
    (rows : List LoginAttempt) (u : String) {a : LoginAttempt}
    → attempt_of u rows ≡ some a
    → a.username ≡ u
unfolding attempt_of
attempt_of-name [] u h = ground arith
attempt_of-name (b ∷ bs) u {a} h =
    ground (arith, (eq_iff b.username u).0, attempt_of-name bs u {a = a})

counted-name :
    (s : AuthSettings) (now : ℕ) (u : String) (rows : List LoginAttempt)
    → (lock_at_limit s now (counted s now u (attempt_of u rows))).1.username ≡ u
unfolding lock_at_limit counted
counted-name s now u rows = elim (Option-cases (attempt_of u rows)) [
  | inl e ↦ rw e (ground arith)
  | inr (a, e) ↦ rw e (ground (arith, attempt_of-name rows u e))
]

-- The row of the name after a failure.
pub attempt_of-record_failure :
    (s : AuthSettings) (now : ℕ) (u : String) (rows : List LoginAttempt)
    → attempt_of u (record_failure s now u rows).1
      ≡ some (lock_at_limit s now (counted s now u (attempt_of u rows))).1
unfolding record_failure
attempt_of-record_failure s now u rows =
    attempt_of-put_attempt (lock_at_limit s now (counted s now u (attempt_of u rows))).1 rows u
      (counted-name s now u rows)

-- The rows after failures at these moments.
abbrev pub failures : AuthSettings → String → List ℕ → List LoginAttempt → List LoginAttempt
failures s u [] rows = rows
failures s u (t ∷ ts) rows = failures s u ts (record_failure s t u rows).1

-- Each moment follows the one before, within the window.
abbrev pub Spaced : AuthSettings → ℕ → List ℕ → Type 0
Spaced s t [] = Unit
Spaced s t (u ∷ us) = (t ≤ u) × (u ≤ t + minutes s.login_attempt_window_minutes) × Spaced s u us

abbrev pub last_of : ℕ → List ℕ → ℕ
last_of t [] = t
last_of t (u ∷ us) = last_of u us

-- A row that counts `n` failures and holds no lock.
abbrev counting : String → ℕ → ℕ → ℕ → LoginAttempt
counting u n f t = record {
  username = u;
  failed_count = n;
  first_failed_at = f;
  last_failed_at = t;
  locked_until = none;
}

-- The row of the name counts `n` failures, the last one at `t`.
abbrev Counts : String → ℕ → ℕ → List LoginAttempt → Type 0
Counts u n t rows = (f : ℕ) × (attempt_of u rows ≡ some (counting u n f t))

counted-next :
    (s : AuthSettings) (u : String) (n f t t' : ℕ)
    → t' ≤ t + minutes s.login_attempt_window_minutes
    → counted s t' u (some (counting u n f t)) ≡ counting u (n + 1) f t'
unfolding counted
counted-next s u n f t t' h = ground arith

Counts-next :
    (s : AuthSettings) (u : String) (n t t' : ℕ) (rows : List LoginAttempt)
    → Counts u n t rows
    → t' ≤ t + minutes s.login_attempt_window_minutes
    → n + 1 < s.login_max_failed_attempts
    → Counts u (n + 1) t' (record_failure s t' u rows).1
unfolding lock_at_limit
Counts-next s u n t t' rows (f, e) h m =
    (f, rw (attempt_of-record_failure s t' u rows, e, counted-next s u n f t t' h) (ground arith))

limit-locks :
    (s : AuthSettings) (u : String) (n t t' : ℕ) (rows : List LoginAttempt)
    → Counts u n t rows
    → t' ≤ t + minutes s.login_attempt_window_minutes
    → s.login_max_failed_attempts ≤ n + 1
    → 0 < s.login_lockout_minutes
    → is_some (locked_until t' (record_failure s t' u rows).1 u) ≡ true
unfolding lock_at_limit locked_until
limit-locks s u n t t' rows (f, e) h m k =
    ap (λ o. is_some (lock_in t' o)) (attempt_of-record_failure s t' u rows)
    ∙ ap (λ o. is_some (lock_in t' (some (lock_at_limit s t' (counted s t' u o)).1))) e
    ∙ ap (λ a. is_some (lock_in t' (some (lock_at_limit s t' a).1))) (counted-next s u n f t t' h)
    ∙ ground arith

Counts-unlocked :
    (u : String) (n t : ℕ) (rows : List LoginAttempt)
    → Counts u n t rows
    → is_some (locked_until t rows u) ≡ false
unfolding locked_until
Counts-unlocked u n t rows (f, e) = ap (λ o. is_some (lock_in t o)) e

run_locks :
    (s : AuthSettings) (u : String) (n t : ℕ) (ts : List ℕ) (rows : List LoginAttempt)
    → Counts u n t rows
    → Spaced s t ts
    → n < s.login_max_failed_attempts
    → n + length ts ≤ s.login_max_failed_attempts
    → 0 < s.login_lockout_minutes
    → is_some (locked_until (last_of t ts) (failures s u ts rows) u)
      ≡ leb s.login_max_failed_attempts (n + length ts)
run_locks s u n t [] rows c p m l k = ground (arith, Counts-unlocked u n t rows c)
run_locks s u n t (t' ∷ []) rows c p m l k =
    elim (Bool-cases (leb s.login_max_failed_attempts (n + 1))) [
      | inl e ↦ limit-locks s u n t t' rows c p.1 (ground arith) k ∙ sym e
      | inr e ↦
          Counts-unlocked u (n + 1) t' (record_failure s t' u rows).1
            (Counts-next s u n t t' rows c p.1 (ground arith))
          ∙ sym e
    ]
run_locks s u n t (t' ∷ x ∷ ts) rows c p m l k =
    run_locks s u (n + 1) t' (x ∷ ts) (record_failure s t' u rows).1
      (Counts-next s u n t t' rows c p.1 (omega arith)) p.2 (omega arith) (omega arith) k
    ∙ ap (leb s.login_max_failed_attempts) (omega arith)

first-failure :
    (s : AuthSettings) (u : String) (t : ℕ) (rows : List LoginAttempt)
    → attempt_of u rows ≡ none
    → attempt_of u (record_failure s t u rows).1 ≡ some (lock_at_limit s t (counting u 1 t t)).1
unfolding counted
first-failure s u t rows h = attempt_of-record_failure s t u rows ∙ rw h refl

-- A run of failed logins under a name that had none, each within the window of the one before:
-- as long as there are no more of them than the limit, which is at least two, the name is locked
-- at the moment of the last one exactly when their number has reached the limit.
pub locks_at_limit :
    (s : AuthSettings) (u : String) (t : ℕ) (ts : List ℕ) (rows : List LoginAttempt)
    → attempt_of u rows ≡ none
    → Spaced s t ts
    → 1 < s.login_max_failed_attempts
    → length (t ∷ ts) ≤ s.login_max_failed_attempts
    → 0 < s.login_lockout_minutes
    → is_some (locked_until (last_of t ts) (failures s u (t ∷ ts) rows) u)
      ≡ leb s.login_max_failed_attempts (length (t ∷ ts))
unfolding lock_at_limit
locks_at_limit s u t ts rows h p m l k =
    run_locks s u 1 t ts (record_failure s t u rows).1
      (t, first-failure s u t rows h ∙ ground arith) p m (omega arith) k
    ∙ ap (leb s.login_max_failed_attempts) (omega arith)
