-- ===== src/Scoring/Words.antt =====
-- `word_count` of backend/app/services/evaluation.py and `str.strip`, over the code points of a
-- text. The white space is Python's.
use Prim.Native.Char.{code}
use Prim.Native.String.{String}
use nafas_hr.Prelude.{
  ℕ, suc, ◌+◌, ◌==◌, Bool, true, false, ◌&&◌, ◌||◌, Option, none, some, List, [], ◌∷◌, leb,
  if◌then◌else◌,
}

abbrev pub codes : String → List ℕ
codes String.[] = []
codes (String.◌∷◌ c s) = code c ∷ codes s

-- `str.isspace`.
unfoldable pub is_space : ℕ → Bool
is_space c =
    leb 9 c && leb c 13
    || (leb 28 c && leb c 32)
    || c == 0x85
    || c == 0xa0
    || c == 0x1680
    || (leb 0x2000 c && leb c 0x200a)
    || c == 0x2028
    || c == 0x2029
    || c == 0x202f
    || c == 0x205f
    || c == 0x3000

-- The tokens of `split()`: a word begins at a code point that is no space, behind one or at the
-- start.
unfoldable pub count_words : Bool → List ℕ → ℕ
unfolding is_space
count_words in_word [] = 0
count_words in_word (c ∷ cs) =
    (if in_word || is_space c then 0 else 1) + count_words (if is_space c then false else true) cs

-- `word_count`.
unfoldable pub word_count : Option String → ℕ
unfolding count_words
word_count none = 0
word_count (some s) = count_words false (codes s)

unfoldable pub drop_spaces : List ℕ → List ℕ
unfolding is_space
drop_spaces [] = []
drop_spaces (c ∷ cs) = if is_space c then drop_spaces cs else c ∷ cs

-- How much is left when the trailing spaces are gone.
unfoldable pub trimmed_length : List ℕ → ℕ
unfolding is_space
trimmed_length [] = 0
trimmed_length (c ∷ cs) =
    let rest = trimmed_length cs in if rest == 0 then (if is_space c then 0 else 1) else suc rest

-- `len(s.strip())`, and 0 for no text.
unfoldable pub stripped_length : Option String → ℕ
unfolding drop_spaces trimmed_length
stripped_length none = 0
stripped_length (some s) = trimmed_length (drop_spaces (codes s))
