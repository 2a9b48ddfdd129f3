-- ===== src/Auth/Attempts/Purge.antt =====
-- Why removing old rows of failed logins cannot be noticed.
use text.Mathlib.Text.{◌==◌ as str_eq}
use text.Mathlib.TextEquality.{eq_iff}
use nafas_hr.Prelude.{
  ◌≡◌, refl, sym, ap, ◌∙◌, ◌⊎◌, inl, inr, ℕ, ◌≤◌, Bool, true, not, ◌&&◌, Option, none, some, List,
  [], ◌∷◌, String, select, if◌then◌else◌, Option-cases, Bool-cases, arith,
}
use nafas_hr.Model.Tables.{LoginAttempt}
use nafas_hr.Auth.Attempts.{
  AuthSettings, attempt_of, locked_until, counted, lock_at_limit, record_failure, purge_stale,
  is_stale, has_no_lock, running_lock, lock_in,
}
use nafas_hr.Auth.Attempts.Locks.{attempt_of-name, attempt_of-record_failure}

-- The user name is the primary key.
abbrev pub OnePerName : List LoginAttempt → Type 0
OnePerName [] = Unit
OnePerName (a ∷ rest) = (attempt_of a.username rest ≡ none) × OnePerName rest

abbrev stays : AuthSettings → ℕ → LoginAttempt → Bool
stays s t₀ a = not (is_stale s t₀ a && has_no_lock t₀ a.locked_until)

abbrev kept : (LoginAttempt → Bool) → Option LoginAttempt → Option LoginAttempt
kept p none = none
kept p (some a) = if p a then some a else none

attempt_of-select :
    (p : LoginAttempt → Bool) (u : String) (rows : List LoginAttempt)
    → OnePerName rows
    → attempt_of u (select p rows) ≡ kept p (attempt_of u rows)
unfolding attempt_of
attempt_of-select p u [] one = refl
attempt_of-select p u (a ∷ rest) one =
    let tail = attempt_of-select p u rest one.1 in
    elim (Bool-cases (str_eq a.username u)) [
      | inl e ↦
          ground
            (arith, tail, sym (ap (λ v. attempt_of v rest) ((eq_iff a.username u).0 e)) ∙ one.0)
      | inr e ↦ ground (arith, tail)
    ]

-- A row that is purged counts as no row.
counted-purged :
    (s : AuthSettings) (t₀ t : ℕ) (u : String) (a : LoginAttempt)
    → t₀ ≤ t
    → a.username ≡ u
    → (is_stale s t₀ a && has_no_lock t₀ a.locked_until) ≡ true
    → counted s t u (some a) ≡ counted s t u none
unfolding counted
counted-purged s t₀ t u a le e h = ground arith

unlocked-purged :
    (s : AuthSettings) (t₀ t : ℕ) (a : LoginAttempt)
    → t₀ ≤ t
    → (is_stale s t₀ a && has_no_lock t₀ a.locked_until) ≡ true
    → running_lock t a.locked_until ≡ none
unlocked-purged s t₀ t a le h = ground arith

-- The rows from which a purge has been made, as one name sees them.
purged-cases :
    (s : AuthSettings) (t₀ : ℕ) (u : String) (rows : List LoginAttempt)
    → OnePerName rows
    → (attempt_of u (purge_stale s t₀ rows) ≡ attempt_of u rows)
      ⊎ ((attempt_of u (purge_stale s t₀ rows) ≡ none)
          × (a : LoginAttempt) × (attempt_of u rows ≡ some a)
          × ((is_stale s t₀ a && has_no_lock t₀ a.locked_until) ≡ true))
unfolding purge_stale
purged-cases s t₀ u rows one =
    let e = attempt_of-select (stays s t₀) u rows one in
    elim (Option-cases (attempt_of u rows)) [
      | inl n ↦ inl (e ∙ ap (kept (stays s t₀)) n ∙ sym n)
      | inr (a, h) ↦ elim (Bool-cases (stays s t₀ a)) [
        | inl k ↦ inl (e ∙ ap (kept (stays s t₀)) h ∙ rw k (sym h))
        | inr k ↦ inr (e ∙ ap (kept (stays s t₀)) h ∙ rw k refl, a, h, ground arith)
      ]
    ]

-- The answers that the rows give about a name later: whether it is locked, what a failure
-- answers, and which row it leaves.
abbrev pub answers :
    AuthSettings → ℕ → String → List LoginAttempt → Option ℕ × Option ℕ × Option LoginAttempt
answers s t u rows = (
  locked_until t rows u,
  (record_failure s t u rows).0,
  attempt_of u (record_failure s t u rows).1,
)

answer_of :
    AuthSettings → ℕ → String → Option LoginAttempt → Option ℕ × Option ℕ × Option LoginAttempt
answer_of s t u o = (
  lock_in t o,
  (lock_at_limit s t (counted s t u o)).0,
  some (lock_at_limit s t (counted s t u o)).1,
)

answers-eq :
    (s : AuthSettings) (t : ℕ) (u : String) (rows : List LoginAttempt)
    → answers s t u rows ≡ answer_of s t u (attempt_of u rows)
unfolding locked_until record_failure answer_of
answers-eq s t u rows i = (
  lock_in t (attempt_of u rows),
  (lock_at_limit s t (counted s t u (attempt_of u rows))).0,
  attempt_of-record_failure s t u rows i,
)

purged-answer :
    (s : AuthSettings) (t₀ t : ℕ) (u : String) (a : LoginAttempt)
    → t₀ ≤ t
    → a.username ≡ u
    → (is_stale s t₀ a && has_no_lock t₀ a.locked_until) ≡ true
    → answer_of s t u none ≡ answer_of s t u (some a)
unfolding answer_of
purged-answer s t₀ t u a le e h i = (
  sym (unlocked-purged s t₀ t a le h) i,
  (lock_at_limit s t (sym (counted-purged s t₀ t u a le e h) i)).0,
  some (lock_at_limit s t (sym (counted-purged s t₀ t u a le e h) i)).1,
)

-- Removing the old rows changes nothing that a later moment can see of any name: its lock, the
-- answer to its next failure, and its row after that.
pub purge_unobserved :
    (s : AuthSettings) (t₀ t : ℕ) (u : String) (rows : List LoginAttempt)
    → t₀ ≤ t
    → OnePerName rows
    → answers s t u (purge_stale s t₀ rows) ≡ answers s t u rows
purge_unobserved s t₀ t u rows le one =
    answers-eq s t u (purge_stale s t₀ rows)
    ∙ elim (purged-cases s t₀ u rows one) [
      | inl e ↦ ap (answer_of s t u) e
      | inr (n, a, h, stale) ↦
          ap (answer_of s t u) n
          ∙ purged-answer s t₀ t u a le (attempt_of-name rows u h) stale
          ∙ ap (answer_of s t u) (sym h)
    ]
    ∙ sym (answers-eq s t u rows)
