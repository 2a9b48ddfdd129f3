-- ===== src/Framework.antt =====
-- backend/app/services/indicator_framework.py: the versions of the set of indicators. The table is
-- newest version first, as `current_framework` reads it.
pub mod Stability
pub mod Rebinding
mod Tests
use nafas_hr.Prelude.{
  ℕ, ◌+◌, ◌==◌, Bool, true, false, ◌&&◌, ◌||◌, not, Option, none, some, List, [], ◌∷◌, String,
  first, select, any, elem, length, is_some, is_none, leb, if◌then◌else◌,
}
use nafas_hr.Model.Enums.{EvaluationStatus}
use nafas_hr.Model.Evaluation.{Evaluation}
use nafas_hr.Model.Tables.{Indicator, IndicatorFramework}
use nafas_hr.Model.Store.{Db}
use nafas_hr.Workflow.Table.{is_open}

-- `sorted`: insertion keeps a list of ids in order.
unfoldable pub insert_id : ℕ → List ℕ → List ℕ
insert_id n [] = n ∷ []
insert_id n (m ∷ ms) = if leb n m then n ∷ m ∷ ms else m ∷ insert_id n ms

unfoldable pub active_ids : List Indicator → List ℕ
unfolding insert_id
active_ids [] = []
active_ids (i ∷ is) = if i.is_active then insert_id i.id (active_ids is) else active_ids is

-- `active_member_ids`.
unfoldable pub active_member_ids : Db → List ℕ
unfolding active_ids
active_member_ids db = active_ids db.indicators

-- `current_framework`.
unfoldable pub current_framework : Db → Option IndicatorFramework
current_framework db = elim db.frameworks [ [] ↦ none | f ∷ _ ↦ some f ]

abbrev version_of : Option IndicatorFramework → ℕ
version_of none = 0
version_of (some f) = f.version

-- `bump`: the next version, of the indicators that are active now.
unfoldable pub bump : Option ℕ → String → Option String → Db → IndicatorFramework × Db
unfolding current_framework
bump actor change_kind change_note db =
    let f : IndicatorFramework = record {
      id = db.next_id;
      version = version_of (current_framework db) + 1;
      member_ids = active_member_ids db;
      change_kind = change_kind;
      change_note = change_note;
      created_by_user_id = actor;
    } in
    (f, record db { frameworks = f ∷ db.frameworks; next_id = db.next_id + 1 })

-- `framework.member_ids != active_member_ids(db)`.
unfoldable pub same_ids : List ℕ → List ℕ → Bool
same_ids [] [] = true
same_ids [] (_ ∷ _) = false
same_ids (_ ∷ _) [] = false
same_ids (n ∷ ns) (m ∷ ms) = n == m && same_ids ns ms

-- `ensure_framework`.
unfoldable pub ensure_framework : Db → IndicatorFramework × Db
unfolding same_ids
ensure_framework db = elim (current_framework db) [
  | none ↦ bump none "seed" none db
  | some f ↦
      if same_ids f.member_ids (active_member_ids db) then (f, db) else bump none "seed" none db
]

unfoldable pub framework_by_id : ℕ → Db → Option IndicatorFramework
framework_by_id id db = first (λ f. f.id == id) db.frameworks

members_or : Option IndicatorFramework → List ℕ → List ℕ
members_or none ids = ids
members_or (some f) ids = f.member_ids

-- `indicator_ids_for_record`: the stamp on the record first, then the indicators that are active.
unfoldable pub indicator_ids_for_record : Db → Evaluation → List ℕ
unfolding members_or framework_by_id
indicator_ids_for_record db r = elim r.indicator_framework_id [
  | none ↦ active_member_ids db
  | some id ↦ members_or (framework_by_id id db) (active_member_ids db)
]

-- `indicators_for_record`: the rows of those indicators, active or not.
unfoldable pub indicators_for_record : Db → Evaluation → List Indicator
indicators_for_record db r =
    let ids = indicator_ids_for_record db r in select (λ i. elem i.id ids) db.indicators

abbrev pub is_day : ℕ → Option ℕ → Bool
is_day n none = false
is_day n (some m) = n == m

-- `_is_untouched`: no score, and no self-assessment of either kind.
unfoldable pub is_untouched : Db → Evaluation → Bool
is_untouched db r =
    not (any (λ s. s.evaluation_record_id == r.id) db.scores)
    && not (
        any
          (λ a.
            a.personnel_id == r.subject_personnel_id
            && is_day a.contract_start_date r.subject_contract_start_date)
          db.assessments)
    && not (is_some r.self_assessment_submitted_at)

-- `indicator_framework_id != framework.id`, which no NULL satisfies.
abbrev stamped_otherwise : ℕ → Option ℕ → Bool
stamped_otherwise id none = false
stamped_otherwise id (some n) = not (n == id)

-- The rows that `rebind_untouched_open_records` selects.
unfoldable pub is_rebound : Db → IndicatorFramework → Evaluation → Bool
unfolding is_untouched
is_rebound db f r =
    is_open r.status && stamped_otherwise f.id r.indicator_framework_id && is_untouched db r

unfoldable pub rebind_rows : Db → IndicatorFramework → List Evaluation → List Evaluation
unfolding is_rebound
rebind_rows db f [] = []
rebind_rows db f (r ∷ rs) =
    (if is_rebound db f r then record r { indicator_framework_id = some f.id } else r)
    ∷ rebind_rows db f rs

-- `rebind_untouched_open_records`, with the number of records that it moves.
unfoldable pub rebind_untouched_open_records : IndicatorFramework → Db → ℕ × Db
unfolding rebind_rows
rebind_untouched_open_records f db = (
  length (select (is_rebound db f) db.evaluations),
  record db { evaluations = rebind_rows db f db.evaluations },
)

-- `impact_of_membership_change`: the open records that stay with their version, and those that
-- can be moved.
unfoldable pub impact_of_membership_change : Db → ℕ × ℕ
unfolding is_untouched
impact_of_membership_change db =
    let opened = select (λ r. is_open r.status) db.evaluations in
    (
      length (select (λ r. not (is_untouched db r)) opened),
      length (select (is_untouched db) opened),
    )
