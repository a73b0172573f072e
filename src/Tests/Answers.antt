-- ===== src/Tests/Answers.antt =====
-- Answers that are matched, with Python's tables cut down to ASCII.
use Prim.Native.Char.{Char, code}
use multi_agent_testbed.Base.{
  ◌≡◌, refl, Bool, true, false, ◌&&◌, ◌||◌, none, some, [], ◌∷◌, if◌then◌else◌, str_eq, leb, ◌==◌,
}
use multi_agent_testbed.Packs.Matching.{Unicode, normalize, last_number}
use multi_agent_testbed.Packs.Answers.{resolve_choice, score_answer}
use multi_agent_testbed.Packs.Reference.{is_correct, is_named, score_answer-target}

abbrev is_digit : Char → Bool
is_digit c = leb 48 (code c) && leb (code c) 57

abbrev is_letter : Char → Bool
is_letter c = leb 65 (code c) && leb (code c) 90 || leb 97 (code c) && leb (code c) 122

-- For texts that are in lower case already, but for a single letter.
abbrev ascii : Unicode
ascii = record {
  lower = λ s. if str_eq s "B" then "b" else s;
  upper = λ s. if str_eq s "b" then "B" else s;
  is_word = λ c. is_digit c || is_letter c || code c == 95;
  is_digit = is_digit;
  is_alpha = is_letter;
  close = λ a b. some (str_eq a b);
}

normalized :
    normalize ascii " the  quick, brown\nfox and theory of a " ≡ "quick brown fox and theory of"
unfolding normalize
normalized = refl

marked : last_number ascii "1 + 2 #### -1,234.50." ≡ some "-1234.50"
unfolding last_number
marked = refl

trailing_comma : last_number ascii "from 3 to 12, more or less" ≡ some "12"
unfolding last_number
trailing_comma = refl

no_number : last_number ascii "none, - or ." ≡ none
unfolding last_number
no_number = refl

letter : resolve_choice ascii ("paris" ∷ "london" ∷ []) "(b)" ≡ none
unfolding resolve_choice
letter = refl

letter_and_mark : resolve_choice ascii ("paris" ∷ "london" ∷ []) " b.) " ≡ some "london"
unfolding resolve_choice
letter_and_mark = refl

score_answer-target_example :
    (is_correct (score_answer ascii "paris" "paris" ("paris" ∷ "london" ∷ []) "exact_match") ≡ true)
    × (is_correct (score_answer ascii "paris" "paris" ("paris" ∷ "london" ∷ []) "normalized_match")
        ≡ true)
    × (is_correct (score_answer ascii "paris" "paris" ("paris" ∷ "london" ∷ []) "multiple_choice")
        ≡ is_named (resolve_choice ascii ("paris" ∷ "london" ∷ []) "paris"))
score_answer-target_example = score_answer-target ascii "paris" ("paris" ∷ "london" ∷ [])

-- A choice that normalisation empties is never judged to be correct.
operator_choice : is_correct (score_answer ascii "+" "+" ("+" ∷ "-" ∷ []) "multiple_choice") ≡ false
unfolding score_answer
operator_choice = refl
