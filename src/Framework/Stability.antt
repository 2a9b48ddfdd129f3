-- ===== src/Framework/Stability.antt =====
-- backend/app/services/indicator_framework.py: a record keeps the questions under which it was
-- opened.
use nafas_hr.Prelude.{ℕ, ◌≡◌, ◌<◌, Option, some, List, [], ◌∷◌, String, arith, All, ◌==◌, first}
use nafas_hr.Model.Evaluation.{Evaluation}
use nafas_hr.Model.Tables.{IndicatorFramework}
use nafas_hr.Model.Store.{Db}
use nafas_hr.Framework.{bump, framework_by_id, indicator_ids_for_record}

-- Ids are given in order: no framework has an id that the sequence has yet to give.
abbrev pub FrameworkIdsBelow : ℕ → List IndicatorFramework → Type 0
FrameworkIdsBelow n fs = All (λ f. f.id < n) fs

found_below :
    (n id : ℕ) (fs : List IndicatorFramework) {f : IndicatorFramework}
    → FrameworkIdsBelow n fs
    → first (λ g. g.id == id) fs ≡ some f
    → id < n
found_below n id [] h e = absurd (ground arith)
found_below n id (g ∷ fs) {f} h e = ground (arith, found_below n id fs {f = f} h.1)

-- A record whose stamp names an existing version asks the same questions after any later change of
-- the indicators and any number of new versions, here one.
pub bump_keeps_questions :
    (actor : Option ℕ) (kind : String) (comment : Option String) (db db' : Db) (r : Evaluation)
    {id : ℕ} {f : IndicatorFramework}
    → FrameworkIdsBelow db.next_id db.frameworks
    → r.indicator_framework_id ≡ some id
    → framework_by_id id db ≡ some f
    → db'.frameworks ≡ db.frameworks
    → db'.next_id ≡ db.next_id
    → indicator_ids_for_record (bump actor kind comment db').1 r ≡ f.member_ids
unfolding bump indicator_ids_for_record
bump_keeps_questions actor kind comment db db' r {id} {f} below stamp found same ids =
    rw stamp (ground (arith, found_below db.next_id id db.frameworks {f = f} below found))
