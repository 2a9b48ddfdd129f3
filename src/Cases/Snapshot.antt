-- ===== src/Cases/Snapshot.antt =====
-- backend/app/services/snapshot.py: `build_final_snapshot`, without the sheet of the
-- self-assessment and the texts of indicators and users.
use nafas_hr.Prelude.{
  ℕ, ◌==◌, ◌≡◌, Option, none, some, List, [], ◌∷◌, select, first, if◌then◌else◌, arith,
}
use nafas_hr.Model.Evaluation.{Evaluation, Snapshot, Comment, single_decider}
use nafas_hr.Model.Tables.{Personnel}
use nafas_hr.Model.Store.{Db}
use nafas_hr.Workflow.Roles.{is_direct_ceo_path, is_manager_path}
use nafas_hr.Scoring.Finalize.{scores_of}

unfoldable pub personnel_by_id : ℕ → Db → Option Personnel
personnel_by_id id db = first (λ p. p.id == id) db.personnel

pub personnel_by_id-id :
    (id : ℕ) (db : Db) {p : Personnel} → personnel_by_id id db ≡ some p → p.id ≡ id
unfolding personnel_by_id
personnel_by_id-id id db {p} h = go db.personnel h
  where
    go : (ps : List Personnel) → first (λ q. q.id == id) ps ≡ some p → p.id ≡ id
    go [] k = ground arith
    go (q ∷ ps) k = ground (arith, go ps)

unfoldable pub comments_of : Evaluation → Db → List Comment
comments_of r db = select (λ c. c.evaluation_record_id == r.id) db.comments

-- The user who scored first, by the path of the record.
unfoldable pub first_scorer : Evaluation → Option ℕ
first_scorer r =
    if is_direct_ceo_path r
    then some r.ceo_user_id
    else if is_manager_path r
    then r.deputy_user_id
    else r.unit_supervisor_user_id

snapshot_with : Db → Evaluation → Personnel → Snapshot
snapshot_with db r p = record {
  full_name = p.full_name;
  personnel_code = p.personnel_code;
  job_title = p.job_title;
  org_unit = p.org_unit;
  evaluator_user_id = first_scorer r;
  single_decider = single_decider r;
  evaluation_code = r.evaluation_code;
  general_score_pct = r.general_score_pct;
  specialized_score_pct = r.specialized_score_pct;
  final_weighted_pct = r.final_weighted_pct;
  base_weighted_pct = r.base_weighted_pct;
  bonus_points = r.bonus_points;
  bonus_reason = r.bonus_reason;
  recommendation = r.recommendation;
  evaluator_comment = r.evaluator_comment;
  scores = scores_of r db;
  comments = comments_of r db;
  finalized_at = r.finalized_at;
}

-- `build_final_snapshot`; none where the personnel row is missing, a ValueError.
unfoldable pub build_final_snapshot : Db → Evaluation → Option Snapshot
unfolding snapshot_with
build_final_snapshot db r = elim (personnel_by_id r.subject_personnel_id db) [
  | none ↦ none
  | some p ↦ some (snapshot_with db r p)
]
