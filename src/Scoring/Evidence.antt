-- ===== src/Scoring/Evidence.antt =====
-- backend/app/services/evaluation.py: `validate_evidence` and `validate_bonus`. Of the messages only
-- the indicators that they name are kept.
use nafas_hr.Prelude.{
  ℕ, Bool, ◌&&◌, Option, none, some, List, [], ◌∷◌, ltb, leb, elem, String, if◌then◌else◌,
}
use nafas_hr.Model.Evaluation.{Score}
use nafas_hr.Scheme.{Rules}
use nafas_hr.Scoring.Words.{word_count, stripped_length}

-- A score that needs evidence has fewer words than the minimum.
unfoldable pub is_short : Rules → Score → Bool
is_short rules row =
    elem row.score rules.evidence_required_scores
    && ltb (word_count row.evidence_text) rules.evidence_min_words

-- Evidence, needed or not, has more words than the maximum.
unfoldable pub is_long : Rules → Score → Bool
is_long rules row = ltb rules.evidence_max_words (word_count row.evidence_text)

-- `violations` and `too_long`: the indicators that the message names.
unfoldable pub named : (Score → Bool) → List Score → List ℕ
named p [] = []
named p (row ∷ rows) = if p row then row.indicator_id ∷ named p rows else named p rows

-- `validate_evidence`: none, or the two lists of the ValueError.
unfoldable pub validate_evidence : Rules → List Score → Option (List ℕ × List ℕ)
unfolding named
validate_evidence rules scores = elim (named (is_short rules) scores) [
  | i ∷ is ↦ some (i ∷ is, named (is_long rules) scores)
  | [] ↦ elim (named (is_long rules) scores) [ [] ↦ none | j ∷ js ↦ some ([], j ∷ js) ]
]

-- `BONUS_REASON_MIN`.
abbrev pub bonus_reason_min : ℕ
bonus_reason_min = 10

-- The messages of `validate_bonus`. Points cannot be negative here.
pub data BonusFault : Type 0 where
  bonus_disabled bonus_too_high reason_too_short : BonusFault

-- `validate_bonus`, on hundredths of points.
unfoldable pub validate_bonus : ℕ → Option String → Rules → Option BonusFault
validate_bonus points reason rules =
    if ltb 0 points && leb rules.bonus_max_points 0
    then some bonus_disabled
    else if ltb rules.bonus_max_points points
    then some bonus_too_high
    else if ltb 0 points && ltb (stripped_length reason) bonus_reason_min
    then some reason_too_short
    else none
