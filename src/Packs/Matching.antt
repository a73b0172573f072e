-- ===== src/Packs/Matching.antt =====
-- src/testbed_packs/lm_eval/metrics.py: answers are matched. Python's tables of characters, and the
-- comparison of two texts as floats, are parameters.
use Prim.Native.Char.{Char, code}
use Prim.Native.String
use multi_agent_testbed.Base.{
  ℕ, zero, suc, ◌-◌, String, Bool, true, false, not, ◌&&◌, ◌||◌, Option, none, some, get_or, [],
  ◌∷◌, if◌then◌else◌, str_eq, leb, ◌==◌, contains, starts_with,
}
use multi_agent_testbed.Packs.Python.{is_space, strip}

-- `str.lower` and `str.upper`; which characters `\w` and `\d` match and `isalpha` accepts; and
-- whether two texts are less than 1e-6 apart as floats, `none` where one of them is no float.
pub record Unicode : Type 0 where
  pub lower : String → String
  pub upper : String → String
  pub is_word : Char → Bool
  pub is_digit : Char → Bool
  pub is_alpha : Char → Bool
  pub close : String → String → Option Bool

infixr 65 ◌<>◌
abbrev ◌<>◌ : String → String → String
s <> t = String.◌++◌ s t

abbrev pub chars : String → ℕ
chars String.[] = 0
chars (String.◌∷◌ c s) = suc (chars s)

abbrev one : Char → String
one c = String.◌∷◌ c ""

abbrev pub keep : (Char → Bool) → String → String
keep p String.[] = ""
keep p (String.◌∷◌ c s) = let rest = keep p s in if p c then String.◌∷◌ c rest else rest

abbrev within : ℕ → ℕ → Char → Bool
within low high c = leb low (code c) && leb (code c) high

-- `string.punctuation`
abbrev pub is_punctuation : Char → Bool
is_punctuation c = within 33 47 c || within 58 64 c || within 91 96 c || within 123 126 c

abbrev run_or_space : String → String
run_or_space run = if contains ("a" ∷ "an" ∷ "the" ∷ []) run then " " else run

-- `ARTICLES.sub(" ", s)` for a text in lower case: each longest run of word characters that is an
-- article becomes a space.
abbrev pub without_articles : Unicode → String → String → String
without_articles u run String.[] = run_or_space run
without_articles u run (String.◌∷◌ c s) = elim (u.is_word c) [
  | true ↦ without_articles u (run <> one c) s
  | false ↦ run_or_space run <> String.◌∷◌ c (without_articles u "" s)
]

-- `WHITESPACE.sub(" ", s)`, and whether the character before was a space
abbrev pub collapse : Bool → String → String
collapse after String.[] = ""
collapse after (String.◌∷◌ c s) =
    let rest = collapse (is_space c) s in
    if is_space c then if after then rest else " " <> rest else String.◌∷◌ c rest

unfoldable pub normalize : Unicode → String → String
normalize u s = strip (
    collapse false (without_articles u "" (keep (λ c. not (is_punctuation c)) (u.lower (strip s)))))

-- `text.split("####")[-1]`, or the whole text where there is no such mark.
abbrev last_part : ℕ → String → String → String
last_part skip current String.[] = current
last_part (suc skip) current (String.◌∷◌ c s) = last_part skip current s
last_part zero current (String.◌∷◌ c s) = elim (starts_with (String.◌∷◌ c s) "####") [
  | true ↦ last_part 3 "" s
  | false ↦ last_part 0 (current <> one c) s
]

-- The longest beginning of a text whose characters pass a test.
abbrev leading : (Char → Bool) → String → String
leading p String.[] = ""
leading p (String.◌∷◌ c s) = let rest = leading p s in if p c then String.◌∷◌ c rest else ""

abbrev skipped : ℕ → String → String
skipped zero s = s
skipped (suc n) String.[] = ""
skipped (suc n) (String.◌∷◌ c s) = skipped n s

abbrev is_comma : Char → Bool
is_comma c = code c == 44

-- A text up to its last character that is no comma.
abbrev to_last_digit : String → String
to_last_digit String.[] = ""
to_last_digit (String.◌∷◌ c s) =
    let rest = to_last_digit s in if is_comma c && str_eq rest "" then "" else String.◌∷◌ c rest

-- `(?:\.\d+)?` at the beginning of a text
abbrev fraction : Unicode → String → String
fraction u String.[] = ""
fraction u (String.◌∷◌ c s) =
    let digits = leading u.is_digit s in
    if code c == 46 && not (str_eq digits "") then String.◌∷◌ c digits else ""

-- `\d+(?:[\d,]*\d)?(?:\.\d+)?` at the beginning of a text; it is empty where there is no match.
abbrev unsigned : Unicode → String → String
unsigned u s =
    let digits = leading u.is_digit s in
    let whole =
      digits
      <> to_last_digit (leading (λ c. u.is_digit c || is_comma c) (skipped (chars digits) s)) in
    if str_eq digits "" then "" else whole <> fraction u (skipped (chars whole) s)

abbrev signed : Char → String → String
signed c number = if str_eq number "" then "" else String.◌∷◌ c number

-- `NUMBER` at the beginning of a text
abbrev number_at : Unicode → String → String
number_at u String.[] = ""
number_at u (String.◌∷◌ c s) =
    if code c == 45 then signed c (unsigned u s) else unsigned u (String.◌∷◌ c s)

-- The last of `NUMBER.findall`, with the characters of the match before that are passed over.
abbrev last_match : Unicode → ℕ → Option String → String → Option String
last_match u skip found String.[] = found
last_match u (suc skip) found (String.◌∷◌ c s) = last_match u skip found s
last_match u zero found (String.◌∷◌ c s) =
    let number = number_at u (String.◌∷◌ c s) in
    elim (str_eq number "") [
      | true ↦ last_match u 0 found s
      | false ↦ last_match u (chars number - 1) (some number) s
    ]

unfoldable pub last_number : Unicode → String → Option String
last_number u s = elim (last_match u 0 none (last_part 0 "" s)) [
  | none ↦ none
  | some number ↦ some (keep (λ c. not (is_comma c)) number)
]

unfoldable pub numbers_equal : Unicode → String → String → Bool
numbers_equal u left right = get_or (u.close left right) (str_eq left right)
