-- ===== src/Guards.antt =====
-- backend/app/services/self_evaluation.py: nobody decides about themselves, and nobody sits on two
-- seats of a chain that could be one; and `inactive_seat_labels` of
-- backend/app/services/evaluation.py.
use nafas_hr.Prelude.{
  ℕ, ◌==◌, Bool, true, false, not, ◌&&◌, ◌||◌, Option, none, some, List, [], ◌∷◌, ◌++◌, any, first,
  elem, is_just, if◌then◌else◌,
}
use nafas_hr.Model.Values.{http, deciding_about_oneself, evaluator_is_subject, redundant_stage}
use nafas_hr.Model.Tables.{User, CurrentUser, EvaluationAccess}
use nafas_hr.Model.Store.{Db}
use nafas_hr.Web.{Exec, raise_if}
use nafas_hr.Workflow.Table.{SeatField, unit_supervisor_user_id, deputy_user_id, ceo_user_id}

-- The user is the one whom the record is about.
unfoldable pub is_about : ℕ → CurrentUser → Bool
is_about personnel_id user = is_just personnel_id user.personnel_id

-- `ensure_not_deciding_about_oneself`.
unfoldable pub ensure_not_deciding_about_oneself :
    {S : Type 0} → ℕ → CurrentUser → Exec S (Unit {0})
unfolding is_about
ensure_not_deciding_about_oneself personnel_id user =
    raise_if (is_about personnel_id user) (http 403 deciding_about_oneself)

abbrev pub present : List (Option ℕ) → List ℕ
present [] = []
present (none ∷ os) = present os
present (some n ∷ os) = n ∷ present os

-- One of the users is linked to the personnel row.
unfoldable pub has_conflict : ℕ → List ℕ → List User → Bool
has_conflict personnel_id ids users =
    any (λ u. elem u.id ids && is_just personnel_id u.personnel_id) users

-- `ensure_evaluators_are_not_the_subject`.
unfoldable pub ensure_evaluators_are_not_the_subject :
    {S : Type 0} → Db → ℕ → List (Option ℕ) → Exec S (Unit {0})
ensure_evaluators_are_not_the_subject db personnel_id ids =
    raise_if (has_conflict personnel_id (present ids) db.users) (http 400 evaluator_is_subject)

same_seat : Option ℕ → Option ℕ → Bool
same_seat none _ = false
same_seat (some a) none = false
same_seat (some a) (some b) = a == b

-- The pairs of `_REDUNDANT_PAIRS`: supervisor and deputy, deputy and chief executive.
unfoldable pub is_redundant : Option ℕ → Option ℕ → Option ℕ → Bool
unfolding same_seat
is_redundant supervisor deputy ceo = same_seat supervisor deputy || same_seat deputy ceo

-- `ensure_chain_stages_are_not_redundant`.
unfoldable pub ensure_chain_stages_are_not_redundant :
    {S : Type 0} → Option ℕ → Option ℕ → Option ℕ → Exec S (Unit {0})
ensure_chain_stages_are_not_redundant supervisor deputy ceo =
    raise_if (is_redundant supervisor deputy ceo) (http 400 redundant_stage)

-- `user is None or not user.is_active`.
unfoldable pub is_dead : Db → ℕ → Bool
is_dead db id = elim (first (λ u. u.id == id) db.users) [ none ↦ true | some u ↦ not u.is_active ]

abbrev label_if_dead : Db → SeatField → Option ℕ → List SeatField
label_if_dead db field none = []
label_if_dead db field (some id) = if is_dead db id then field ∷ [] else []

-- `inactive_seat_labels`: the seats whose user is gone or inactive, in the order of the chain.
unfoldable pub inactive_seat_labels : Db → EvaluationAccess → List SeatField
inactive_seat_labels db access =
    label_if_dead db unit_supervisor_user_id access.unit_supervisor_user_id
    ++ (label_if_dead db deputy_user_id access.deputy_user_id
        ++ label_if_dead db ceo_user_id (some access.ceo_user_id))

-- A chain names the personnel row's own user on one of its three seats.
unfoldable pub sits : ℕ → Option ℕ → Option ℕ → ℕ → Bool
sits user_id supervisor deputy ceo =
    is_just user_id supervisor || is_just user_id deputy || user_id == ceo

-- `ensure_user_link_is_not_self_evaluation`.
unfoldable pub ensure_user_link_is_not_self_evaluation :
    {S : Type 0} → Db → ℕ → ℕ → Exec S (Unit {0})
unfolding sits
ensure_user_link_is_not_self_evaluation db user_id personnel_id =
    raise_if
      (any
          (λ a.
            a.personnel_id == personnel_id
            && sits user_id a.unit_supervisor_user_id a.deputy_user_id a.ceo_user_id)
          db.accesses
        || any
            (λ r.
              r.subject_personnel_id == personnel_id
              && sits user_id r.unit_supervisor_user_id r.deputy_user_id r.ceo_user_id)
            db.evaluations)
      (http 400 evaluator_is_subject)
