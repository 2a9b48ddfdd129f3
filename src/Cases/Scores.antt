-- ===== src/Cases/Scores.antt =====
-- backend/app/api/routers/evaluations.py: what the scorer of a record writes while it is a draft,
-- and who may see a record: `_is_the_scorer`, `_replace_scores`, `upsert_scores`,
-- `set_evaluator_comment`, `set_special_score` and `_ensure_can_view`.
pub mod Rows
use Prim.Native.Char.{code}
use Prim.Native.String.{String}
use nafas_hr.Prelude.{
  ℕ, ◌==◌, Bool, true, false, ◌&&◌, ◌||◌, not, Option, none, some, List, [], ◌∷◌, ◌++◌, elem,
  select, length, ltb, is_just, is_some, if◌then◌else◌,
}
use nafas_hr.Model.Enums.{UserRole, unit_supervisor, deputy, ceo, is_hr, is_draft}
use nafas_hr.Model.Values.{
  Env, Json, null, num, text, http, forbidden, no_access, foreign_indicator, duplicate_indicator,
  bonus_invalid, Result, ok, err, Error,
}
use nafas_hr.Model.Evaluation.{Evaluation, Score}
use nafas_hr.Model.Tables.{CurrentUser}
use nafas_hr.Model.Store.{Db, Case}
use nafas_hr.Web.{Exec, raise, raise_if, modify, gets, ◌>>=◌, ◌>>◌}
use nafas_hr.Audit.{log_event}
use nafas_hr.Guards.{is_about}
use nafas_hr.Workflow.Roles.{is_manager_path, is_direct_ceo_path, may_act_at}
use nafas_hr.Window.{ensure_open}
use nafas_hr.Framework.{indicators_for_record}
use nafas_hr.Scheme.{rules_for_record}
use nafas_hr.Scoring.Words.{is_space}
use nafas_hr.Scoring.Evidence.{validate_bonus}
use nafas_hr.Scoring.Finalize.{indicator_ids}
use nafas_hr.Cases.Snapshot.{first_scorer}
use nafas_hr.Cases.Chain.{ensure_not_about_oneself}

-- The stage at which the path of a record scores it.
unfoldable pub scoring_role : Evaluation → UserRole
scoring_role r =
    if is_direct_ceo_path r then ceo else if is_manager_path r then deputy else unit_supervisor

-- `_is_the_scorer`.
unfoldable pub is_the_scorer : Evaluation → CurrentUser → Bool
is_the_scorer r user =
    is_draft r.status && (is_just user.id (first_scorer r) && may_act_at user.role (scoring_role r))

unfoldable pub ensure_scorer : CurrentUser → Exec Case (Unit {0})
ensure_scorer user c = raise_if (not (is_the_scorer c.record_ user)) (http 403 forbidden) c

-- The users on the seats of the chain.
unfoldable pub on_chain : Evaluation → CurrentUser → Bool
on_chain r user =
    is_just user.id r.unit_supervisor_user_id
    || (is_just user.id r.deputy_user_id || user.id == r.ceo_user_id)

-- `_ensure_can_view`.
unfoldable pub ensure_can_view : CurrentUser → Exec Case (Unit {0})
ensure_can_view user = do
  ensure_not_about_oneself user
  raise_if (not (← gets (λ c. is_hr user.role || on_chain c.record_ user))) (http 403 no_access)

-- `ScoreItem`.
pub record ScoreItem : Type 0 where
  pub indicator_id : ℕ
  pub score : ℕ
  pub evidence_text : Option String

-- The row of an item, for the record `id`.
abbrev row_of : ℕ → ScoreItem → Score
row_of id item = record {
  evaluation_record_id = id;
  indicator_id = item.indicator_id;
  score = item.score;
  evidence_text = item.evidence_text;
}

-- The fault of an item, where `seen` are the indicators of the items before it.
unfoldable pub item_fault : List ℕ → List ℕ → ScoreItem → Option Error
item_fault known seen item =
    if not (elem item.indicator_id known)
    then some (http 400 foreign_indicator)
    else if elem item.indicator_id seen
    then some (http 400 duplicate_indicator)
    else none

-- The loop of `_replace_scores`: the rows, or the fault of the first item that has one.
unfoldable pub check_items : ℕ → List ℕ → List ℕ → List ScoreItem → Result (List Score)
check_items id known seen [] = ok []
check_items id known seen (item ∷ items) =
    let rest = check_items id known (item.indicator_id ∷ seen) items in
    elim (item_fault known seen item) [
      | some e ↦ err e
      | none ↦ elim rest [ err e ↦ err e | ok rows ↦ ok (row_of id item ∷ rows) ]
    ]

-- The table of scores, with `rows` in place of those that the record had.
unfoldable pub put_scores : List Score → Case → Case
put_scores rows c = record c {
  db = record c.db {
    scores = select (λ s. not (s.evaluation_record_id == c.record_.id)) c.db.scores ++ rows;
  };
}

-- `_replace_scores`.
unfoldable pub replace_scores : List ScoreItem → Exec Case (List Score)
replace_scores items c =
    let known = indicator_ids (indicators_for_record c.db c.record_) in
    elim (check_items c.record_.id known [] items) [
      | err e ↦ err e
      | ok rows ↦ ok (rows, put_scores rows c)
    ]

log_scores : Env → CurrentUser → List Score → Case → Case
log_scores env user rows c = record c {
  db =
      log_event env user.id "scores_draft_saved" (some c.record_.id) none
        (some (("scored_indicators", num (length rows)) ∷ [])) c.db;
}

-- `upsert_scores`.
unfoldable pub upsert_scores : Env → List ScoreItem → CurrentUser → Exec Case (Unit {0})
unfolding log_scores
upsert_scores env items user = do
  ensure_open env
  ensure_scorer user
  rows ← replace_scores items
  modify (log_scores env user rows)

-- `set_evaluator_comment`.
unfoldable pub set_evaluator_comment : Env → Option String → CurrentUser → Exec Case (Unit {0})
set_evaluator_comment env words user = do
  ensure_open env
  ensure_scorer user
  modify (λ c. record c { record_ = record c.record_ { evaluator_comment = words } })

-- `str.lstrip`.
unfoldable pub lstrip : String → String
unfolding is_space
lstrip String.[] = String.[]
lstrip (String.◌∷◌ c s) = let rest = lstrip s in if is_space (code c) then rest else String.◌∷◌ c s

-- `str.rstrip`.
unfoldable pub rstrip : String → String
unfolding is_space
rstrip String.[] = String.[]
rstrip (String.◌∷◌ c s) = elim (rstrip s) [
  | String.[] ↦ if is_space (code c) then String.[] else String.◌∷◌ c String.[]
  | String.◌∷◌ d rest ↦ String.◌∷◌ c (String.◌∷◌ d rest)
]

abbrev text_or_none : String → Option String
text_or_none String.[] = none
text_or_none (String.◌∷◌ c s) = some (String.◌∷◌ c s)

-- `(reason or "").strip() or None`.
unfoldable pub clean_reason : Option String → Option String
clean_reason none = none
clean_reason (some s) = text_or_none (rstrip (lstrip s))

abbrev pub text_json : Option String → Json
text_json none = null
text_json (some s) = text s

abbrev pub num_json : Option ℕ → Json
num_json none = null
num_json (some n) = num n

unfoldable pub put_bonus : ℕ → Option String → Evaluation → Evaluation
put_bonus points reason r = record r {
  bonus_points = some points;
  bonus_reason = if ltb 0 points then reason else none;
}

store_bonus : Env → CurrentUser → ℕ → Option String → Case → Case
store_bonus env user points reason c =
    let r = put_bonus points reason c.record_ in
    record {
      record_ = r;
      db =
          log_event env user.id "special_score_set" (some r.id)
            (some (
              ("bonus_points", num_json c.record_.bonus_points)
              ∷ ("bonus_reason", text_json c.record_.bonus_reason)
              ∷ []))
            (some (("bonus_points", num points) ∷ ("bonus_reason", text_json r.bonus_reason) ∷ []))
            c.db;
    }

-- `set_special_score`, on hundredths of points.
unfoldable pub set_special_score : Env → ℕ → Option String → CurrentUser → Exec Case (Unit {0})
unfolding store_bonus
set_special_score env points given user = do
  ensure_open env
  ensure_scorer user
  fault ← gets (λ c. validate_bonus points (clean_reason given) (rules_for_record c.db c.record_))
  raise_if (is_some fault) (http 400 bonus_invalid)
  modify (store_bonus env user points (clean_reason given))
