-- ===== src/Cases/Chain/Accounts.antt =====
-- Requests for one record, each made by an account of the table, as `get_current_user` of
-- backend/app/api/deps.py finds it.
use nafas_hr.Prelude.{
  ℕ, ◌==◌, ◌≡◌, Bool, true, false, not, ◌&&◌, ◌||◌, is_none, is_just, none, some, List, [], ◌∷◌,
  first, Option-cases, inl, inr, arith, if◌then◌else◌,
}
use nafas_hr.Model.Enums.{is_finalized, is_hr}
use nafas_hr.Model.Values.{Result, ok, err, http, bad_token}
use nafas_hr.Model.Tables.{User, CurrentUser}
use nafas_hr.Model.Evaluation.{Evaluation}
use nafas_hr.Guards.{is_about}
use nafas_hr.Model.Store.{Db, Case}
use nafas_hr.Web.{Exec, pure, ◌>>◌}

-- A user of an account.
abbrev pub as_current : User → CurrentUser
as_current u = record { id = u.id; role = u.role; personnel_id = u.personnel_id }

-- The account of the id is there and active, and its user passes.
abbrev pub live : (CurrentUser → Bool) → ℕ → Db → Bool
live p id db = elim (first (λ u. u.id == id) db.users) [
  | none ↦ false
  | some u ↦ u.is_active && p (as_current u)
]

-- A request of the account: `get_current_user` lets only an active account of the table pass.
unfoldable pub act_as : (CurrentUser → Exec Case (Unit {0})) → ℕ → Exec Case (Unit {0})
act_as call id c = elim (first (λ u. u.id == id) c.db.users) [
  | none ↦ err (http 401 bad_token)
  | some u ↦ if u.is_active then call (as_current u) c else err (http 401 bad_token)
]

found-id : (id : ℕ) (us : List User) {u : User} → first (λ u. u.id == id) us ≡ some u → u.id ≡ id
found-id id [] h = ground arith
found-id id (x ∷ us) {u} h = ground (arith, found-id id us {u = u})

-- The account acts as its user.
pub act_as-live :
    (call : CurrentUser → Exec Case (Unit {0})) (p : CurrentUser → Bool) (id : ℕ) (c : Case)
    → live p id c.db ≡ true
    → (u : CurrentUser) × (u.id ≡ id) × (p u ≡ true) × (act_as call id c ≡ call u c)
unfolding act_as
act_as-live call p id c h = elim (Option-cases (first (λ (u : User). u.id == id) c.db.users)) [
  | inl e ↦ ground arith
  | inr (u, e) ↦ (as_current u, found-id id c.db.users e, ground arith, ground arith)
]

-- Approvals one after another, each by the account named with it.
abbrev pub Approvals : Type 0
Approvals = List (ℕ × (CurrentUser → Exec Case (Unit {0})))

unfoldable pub act_all : Approvals → Exec Case (Unit {0})
act_all [] = pure tt
act_all ((id, call) ∷ rest) = do act_as call id; act_all rest

-- The record is finalized in the end.
abbrev pub ends_finalized : Result (Unit {0} × Case) → Bool
ends_finalized (ok (u, c)) = is_finalized c.record_.status
ends_finalized (err e) = false

-- Who may approve for human resources.
abbrev pub handles : Evaluation → CurrentUser → Bool
handles r u =
    is_hr u.role
    && (not (is_about r.subject_personnel_id u)
        && (is_none r.hr_user_id || is_just u.id r.hr_user_id))
