-- ===== src/Scoring/Complete.antt =====
-- backend/app/services/workflow.py and evaluation.py: when the scoring of a record can be finished.
use nafas_hr.Prelude.{
  ℕ, ◌≡◌, ◌≤◌, ◌↔◌, All, sym, ◌∙◌, ==-refl, if◌then◌else◌, refl, Bool, true, false, not, ◌&&◌, ◌||◌,
  Option, none, some, List, [], ◌∷◌, any, elem, is_none, is_some, arith,
}
use nafas_hr.Model.Values.{Env, is_ok}
use nafas_hr.Model.Evaluation.{Score}
use nafas_hr.Model.Tables.{CurrentUser, Indicator}
use nafas_hr.Model.Store.{Case}
use nafas_hr.Framework.{indicators_for_record}
use nafas_hr.Scheme.{Rules, rules_for_record}
use nafas_hr.Scoring.Floats.{FloatOps}
use nafas_hr.Scoring.Words.{word_count}
use nafas_hr.Scoring.Evidence.{is_short, is_long, named, validate_evidence}
use nafas_hr.Scoring.Compute.{
  Sums, indicator_by_id, sum_rows, recommendation_for, compute_result, result_of,
}
use nafas_hr.Scoring.Finalize.{
  scores_of, scored_ids, indicator_ids, subset, same_set, result_of_record, is_complete,
  finalize_scoring,
}

named-any : (p : Score → Bool) (rows : List Score) → named p rows ≡ [] → any p rows ≡ false
unfolding named
named-any p [] h = refl
named-any p (row ∷ rows) h = ground (arith, named-any p rows)

any-named :
    (p : Score → Bool) (rows : List Score) {i : ℕ} {is : List ℕ}
    → named p rows ≡ i ∷ is
    → any p rows ≡ true
unfolding named
any-named p [] {i} {is} h = absurd (ground arith)
any-named p (row ∷ rows) {i} {is} h = ground (arith, any-named p rows {i = i} {is = is})

evidence_by :
    (rules : Rules) (scores : List Score) (shorts longs : List ℕ)
    → named (is_short rules) scores ≡ shorts
    → named (is_long rules) scores ≡ longs
    → is_none (validate_evidence rules scores)
      ≡ not (any (is_short rules) scores || any (is_long rules) scores)
unfolding validate_evidence
evidence_by rules scores (i ∷ is) longs hs hl =
    ground (arith, any-named (is_short rules) scores {i = i} {is = is} hs)
evidence_by rules scores [] (j ∷ js) hs hl = ground (
  arith,
  named-any (is_short rules) scores hs,
  any-named (is_long rules) scores {i = j} {is = js} hl,
)
evidence_by rules scores [] [] hs hl =
    ground (arith, named-any (is_short rules) scores hs, named-any (is_long rules) scores hl)

evidence-any :
    (rules : Rules) (scores : List Score)
    → is_none (validate_evidence rules scores)
      ≡ not (any (is_short rules) scores || any (is_long rules) scores)
evidence-any rules scores =
    evidence_by rules scores (named (is_short rules) scores) (named (is_long rules) scores) refl
      refl

-- How many words the rules ask for with a score.
abbrev pub least_words : Rules → Score → ℕ
least_words rules row =
    if elem row.score rules.evidence_required_scores then rules.evidence_min_words else 0

-- The number of words is within the bounds.
abbrev pub HasEvidence : Rules → Score → Type 0
HasEvidence rules row =
    (least_words rules row ≤ word_count row.evidence_text)
    × (word_count row.evidence_text ≤ rules.evidence_max_words)

any-HasEvidence :
    (rules : Rules) (scores : List Score)
    → not (any (is_short rules) scores || any (is_long rules) scores) ≡ true
    → All (HasEvidence rules) scores
unfolding is_short is_long
any-HasEvidence rules [] h = tt
any-HasEvidence rules (row ∷ rows) h =
    ((ground arith, ground arith), any-HasEvidence rules rows (ground arith))

HasEvidence-any :
    (rules : Rules) (scores : List Score)
    → All (HasEvidence rules) scores
    → not (any (is_short rules) scores || any (is_long rules) scores) ≡ true
unfolding is_short is_long
HasEvidence-any rules [] h = refl
HasEvidence-any rules (row ∷ rows) h = ground (arith, HasEvidence-any rules rows h.1)

-- The evidence of the scores passes exactly when that of every score has at least as many words as
-- the rules ask for with this score, and at most as many as they allow with any.
pub validate_evidence-is_none :
    (rules : Rules) (scores : List Score)
    → is_none (validate_evidence rules scores) ≡ true ↔ All (HasEvidence rules) scores
validate_evidence-is_none rules scores = (
  λ h. any-HasEvidence rules scores (sym (evidence-any rules scores) ∙ h),
  λ h. evidence-any rules scores ∙ HasEvidence-any rules scores h,
)

subset-elem : (ns ms : List ℕ) (n : ℕ) → subset ns ms ≡ true → elem n ns ≡ true → elem n ms ≡ true
subset-elem [] ms n h e = absurd (ground arith)
subset-elem (m ∷ ns) ms n h e = ground (arith, subset-elem ns ms n)

-- Two lists with the same members.
abbrev pub SameMembers : List ℕ → List ℕ → Type 0
SameMembers ns ms = (n : ℕ) → elem n ns ≡ elem n ms

elem-subset :
    (ns ms : List ℕ) → ((n : ℕ) → elem n ns ≡ true → elem n ms ≡ true) → subset ns ms ≡ true
elem-subset [] ms h = refl
elem-subset (n ∷ ns) ms h =
    let here : elem n ms ≡ true = h n (ground (arith, ==-refl n)) in
    let rest = elem-subset ns ms (λ k e. h k (ground arith)) in ground arith

same_set-SameMembers : (ns ms : List ℕ) → same_set ns ms ≡ true ↔ SameMembers ns ms
unfolding same_set
same_set-SameMembers ns ms = (
  λ h n. ground (arith, subset-elem ns ms n, subset-elem ms ns n),
  λ h. ground (arith, elem-subset ns ms (λ n e. sym (h n) ∙ e), elem-subset ms ns (λ n e. h n ∙ e)),
)

indicator_found :
    (id : ℕ) (indicators : List Indicator)
    → elem id (indicator_ids indicators) ≡ true
    → is_some (indicator_by_id id indicators) ≡ true
unfolding indicator_by_id
indicator_found id [] h = absurd (ground arith)
indicator_found id (i ∷ is) h = ground (arith, indicator_found id is)

-- A value that is there, passed on to a function that gives one.
some-then :
    {A B : Type 0} (o : Option A) (f : A → Option B)
    → is_some o ≡ true
    → ((a : A) → is_some (f a) ≡ true)
    → is_some (elim o [ none ↦ none | some a ↦ f a ]) ≡ true
some-then none f h k = absurd (ground arith)
some-then (some a) f h k = k a

-- The table of recommendations of the rules is not empty.
unfoldable pub has_thresholds : Rules → Bool
has_thresholds rules = elim rules.thresholds [ [] ↦ false | _ ∷ _ ↦ true ]

module _ {F : Type 0} (fl : FloatOps F) where
  sum_rows-is_some :
      (rules : Rules) (indicators : List Indicator) (rows : List Score) (s : Sums F)
      → subset (scored_ids rows) (indicator_ids indicators) ≡ true
      → is_some (sum_rows fl rules indicators rows s) ≡ true
  unfolding sum_rows
  sum_rows-is_some rules indicators [] s h = refl
  sum_rows-is_some rules indicators (row ∷ rows) s h =
      let rest : subset (scored_ids rows) (indicator_ids indicators) ≡ true = ground arith in
      some-then (indicator_by_id row.indicator_id indicators) _
        (indicator_found row.indicator_id indicators (ground arith))
        (λ i. sum_rows-is_some rules indicators rows _ rest)

  recommendation-is_some :
      (rules : Rules) (pct : F)
      → has_thresholds rules ≡ true
      → is_some (recommendation_for fl rules pct) ≡ true
  unfolding recommendation_for has_thresholds
  recommendation-is_some rules pct h = ground arith

  result_of-is_some :
      (rules : Rules) (points : ℕ) (sums : Sums F)
      → has_thresholds rules ≡ true
      → is_some (result_of fl rules points sums) ≡ true
  unfolding result_of
  result_of-is_some rules points sums h =
      some-then _ _ (recommendation-is_some rules _ h) (λ label. refl)

  -- A record that is scored in full has a result, so that its scoring never fails with an error of the
  -- server, provided that its rules have a table of recommendations.
  pub complete-has_result :
      (c : Case)
      → is_complete fl c ≡ true
      → has_thresholds (rules_for_record c.db c.record_) ≡ true
      → is_some (result_of_record fl c) ≡ true
  unfolding is_complete same_set result_of_record compute_result
  complete-has_result c h t =
      let rules = rules_for_record c.db c.record_ in
      some-then _ _
        (sum_rows-is_some rules (indicators_for_record c.db c.record_) (scores_of c.record_ c.db) _
          (ground arith))
        (λ sums. result_of-is_some rules _ sums t)

  guards_of_scoring :
      (env : Env) (user : CurrentUser) (c : Case)
      → is_ok (finalize_scoring fl env user c) ≡ (
          is_complete fl c
          && (is_none
                (validate_evidence (rules_for_record c.db c.record_) (scores_of c.record_ c.db))
              && is_some (result_of_record fl c)))
  unfolding finalize_scoring
  guards_of_scoring env user c = ground arith

  -- The scoring of a record can be finished exactly when the indicators that are scored are those of
  -- the record, all of them and no others, and the evidence of every score has a number of words within
  -- the bounds of the rules, provided that the rules have a table of recommendations. The computation
  -- itself then never fails.
  pub finalize_scoring-is_ok :
      (env : Env) (user : CurrentUser) (c : Case)
      → has_thresholds (rules_for_record c.db c.record_) ≡ true
      → is_ok (finalize_scoring fl env user c) ≡ true ↔ (
          SameMembers
            (scored_ids (scores_of c.record_ c.db))
            (indicator_ids (indicators_for_record c.db c.record_))
          × All (HasEvidence (rules_for_record c.db c.record_)) (scores_of c.record_ c.db))
  unfolding is_complete
  finalize_scoring-is_ok env user c t =
      let rows = scores_of c.record_ c.db in
      let rules = rules_for_record c.db c.record_ in
      let known = indicator_ids (indicators_for_record c.db c.record_) in
      let same = same_set-SameMembers (scored_ids rows) known in
      let fits = validate_evidence-is_none rules rows in
      let guards = guards_of_scoring env user c in
      (
        λ h. (same.0 (ground (arith, guards)), fits.0 (ground (arith, guards))),
        λ h.
            let full = same.1 h.0 in
            let evident = fits.1 h.1 in ground (arith, guards, complete-has_result c full t),
      )
