-- ===== src/Cases/Scores/Rows.antt =====
-- backend/app/api/routers/evaluations.py: what `upsert_scores` leaves in the table of scores.
use nafas_hr.Prelude.{
  ℕ, ◌≡◌, refl, ap, ◌∙◌, ◌==◌, ==-refl, Bool, true, false, not, ◌&&◌, List, [], ◌∷◌, ◌++◌, elem,
  select, arith, map, Option, String,
}
use nafas_hr.Model.Values.{Env, Result, ok, err}
use nafas_hr.Model.Evaluation.{Evaluation, Score}
use nafas_hr.Model.Tables.{CurrentUser}
use nafas_hr.Model.Store.{Case}
use nafas_hr.Audit.{log_event}
use nafas_hr.Framework.{indicators_for_record}
use nafas_hr.Window.{ensure_open, record_accepts_entries}
use nafas_hr.Scoring.Finalize.{scores_of, scored_ids, indicator_ids}
use nafas_hr.Cases.Scores.{
  ScoreItem, item_fault, check_items, put_scores, replace_scores, upsert_scores, ensure_scorer,
  is_the_scorer,
}

-- Every id of a list is new: none of those before it, none twice.
abbrev pub distinct : List ℕ → List ℕ → Bool
distinct seen [] = true
distinct seen (n ∷ ns) = not (elem n seen) && distinct (n ∷ seen) ns

abbrev pub all_known : List ℕ → List ℕ → Bool
all_known known [] = true
all_known known (n ∷ ns) = elem n known && all_known known ns

abbrev pub all_of : ℕ → List Score → Bool
all_of id [] = true
all_of id (s ∷ ss) = s.evaluation_record_id == id && all_of id ss

-- What a row says: its indicator, the score and the evidence.
abbrev pub said : Score → ℕ × ℕ × Option String
said s = (s.indicator_id, s.score, s.evidence_text)

-- What an item asks for.
abbrev pub asked : ScoreItem → ℕ × ℕ × Option String
asked i = (i.indicator_id, i.score, i.evidence_text)

-- The rows of a payload that passes.
check_items-valid :
    (id : ℕ) (known seen : List ℕ) (items : List ScoreItem) (rows : List Score)
    → check_items id known seen items ≡ ok rows
    → (all_of id rows ≡ true)
      × (all_known known (scored_ids rows) ≡ true)
      × (distinct seen (scored_ids rows) ≡ true)
      × (map said rows ≡ map asked items)
unfolding check_items item_fault
check_items-valid id known seen [] rows h = ground arith
check_items-valid id known seen (item ∷ items) [] h = absurd (ground arith)
check_items-valid id known seen (item ∷ items) (row ∷ rows) h =
    ground (arith, ==-refl id, check_items-valid id known (item.indicator_id ∷ seen) items rows)

-- The rows of a record among those of all records.
own_rows :
    (id : ℕ) (ss : List Score)
    → select
        (λ s. s.evaluation_record_id == id)
        (select (λ s. not (s.evaluation_record_id == id)) ss)
      ≡ []
own_rows id [] = refl
own_rows id (s ∷ ss) = ground (arith, own_rows id ss)

select-append {ℓ} :
    {A : Type ℓ} (p : A → Bool) (xs ys : List A) → select p (xs ++ ys) ≡ select p xs ++ select p ys
select-append p [] ys = refl
select-append p (x ∷ xs) ys = ground (arith, select-append p xs ys)

select-all_of :
    (id : ℕ) (rows : List Score)
    → all_of id rows ≡ true
    → select (λ s. s.evaluation_record_id == id) rows ≡ rows
select-all_of id [] h = refl
select-all_of id (s ∷ ss) h = ground (arith, select-all_of id ss)

-- The rows of other records are the ones that were there.
others_rows :
    (id other : ℕ) (ss rows : List Score)
    → (other == id) ≡ false
    → all_of id rows ≡ true
    → select
        (λ s. s.evaluation_record_id == other)
        (select (λ s. not (s.evaluation_record_id == id)) ss ++ rows)
      ≡ select (λ s. s.evaluation_record_id == other) ss
others_rows id other [] [] h a = refl
others_rows id other [] (row ∷ rows) h a = ground (arith, others_rows id other [] rows)
others_rows id other (s ∷ ss) rows h a = ground (arith, others_rows id other ss rows)

-- What a saved draft has done.
pub record Saved (env : Env) (items : List ScoreItem) (user : CurrentUser) (c c' : Case)
    : Type 0 where
  pub accepts : record_accepts_entries env c.db c.record_ ≡ true
  pub by_scorer : is_the_scorer c.record_ user ≡ true
  pub rows : List Score
  pub checked :
      check_items c.record_.id (indicator_ids (indicators_for_record c.db c.record_)) [] items
      ≡ ok rows
  pub same_record : c'.record_ ≡ c.record_
  pub stored :
      c'.db.scores ≡ select (λ s. not (s.evaluation_record_id == c.record_.id)) c.db.scores ++ rows

upsert_by :
    (env : Env) (items : List ScoreItem) (user : CurrentUser) (c c' : Case)
    (answer : Result (List Score))
    → check_items c.record_.id (indicator_ids (indicators_for_record c.db c.record_)) [] items
      ≡ answer
    → upsert_scores env items user c ≡ ok (tt, c')
    → Saved env items user c c'
unfolding upsert_scores ensure_open ensure_scorer replace_scores put_scores record_accepts_entries
    log_event
upsert_by env items user c c' (err x) e h = absurd (ground arith)
upsert_by env items user c c' (ok rows) e h = record {
  accepts = ground arith;
  by_scorer = ground arith;
  rows = rows;
  checked = e;
  same_record = ground arith;
  stored = ground arith;
}

pub upsert_scores-Saved :
    (env : Env) (items : List ScoreItem) (user : CurrentUser) (c c' : Case)
    → upsert_scores env items user c ≡ ok (tt, c')
    → Saved env items user c c'
upsert_scores-Saved env items user c c' h =
    upsert_by env items user c c'
      (check_items c.record_.id (indicator_ids (indicators_for_record c.db c.record_)) [] items)
      refl h

-- A saved draft is what the record's scores are then: in the order of the items one row for each, with
-- its indicator, its score and its evidence; each is about an indicator of the record, none twice.
pub upsert_scores-rows :
    (env : Env) (items : List ScoreItem) (user : CurrentUser) (c c' : Case)
    → upsert_scores env items user c ≡ ok (tt, c')
    → (map said (scores_of c'.record_ c'.db) ≡ map asked items)
      × (all_known
            (indicator_ids (indicators_for_record c.db c.record_))
            (scored_ids (scores_of c'.record_ c'.db))
          ≡ true)
      × (distinct [] (scored_ids (scores_of c'.record_ c'.db)) ≡ true)
unfolding scores_of
upsert_scores-rows env items user c c' h =
    let s = upsert_scores-Saved env items user c c' h in
    let id = c.record_.id in
    let known = indicator_ids (indicators_for_record c.db c.record_) in
    let v = check_items-valid id known [] items s.rows s.checked in
    let mine : scores_of c'.record_ c'.db ≡ s.rows =
      ap (λ (r : Evaluation). select (λ x. x.evaluation_record_id == r.id) c'.db.scores)
        s.same_record
      ∙ ap (select (λ x. x.evaluation_record_id == id)) s.stored
      ∙ select-append (λ x. x.evaluation_record_id == id)
          (select (λ x. not (x.evaluation_record_id == id)) c.db.scores) s.rows
      ∙ ap (λ xs. xs ++ select (λ x. x.evaluation_record_id == id) s.rows) (own_rows id c.db.scores)
      ∙ select-all_of id s.rows v.0 in
    (
      ap (map said) mine ∙ v.3,
      ap (λ rows. all_known known (scored_ids rows)) mine ∙ v.1,
      ap (λ rows. distinct [] (scored_ids rows)) mine ∙ v.2,
    )

-- A saved draft leaves the scores of every other record as they were.
pub upsert_scores-others :
    (env : Env) (items : List ScoreItem) (user : CurrentUser) (c c' : Case) (other : Evaluation)
    → upsert_scores env items user c ≡ ok (tt, c')
    → (other.id == c.record_.id) ≡ false
    → scores_of other c'.db ≡ scores_of other c.db
unfolding scores_of
upsert_scores-others env items user c c' other h ne =
    let s = upsert_scores-Saved env items user c c' h in
    let known = indicator_ids (indicators_for_record c.db c.record_) in
    let v = check_items-valid c.record_.id known [] items s.rows s.checked in
    ap (select (λ x. x.evaluation_record_id == other.id)) s.stored
    ∙ others_rows c.record_.id other.id c.db.scores s.rows ne v.0
