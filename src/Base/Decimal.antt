-- ===== src/Base/Decimal.antt =====
-- Decimal texts, as the lists of their digits: Python's `str` and `int` of a number that is not
-- negative.
use Prim.Native.String
use Prim.Native.Nat.{ℕ, zero, suc, ◌+◌, ◌*◌, ◌/◌, ◌%◌, ◌≤◌}
use mathlib.Core.Path.{◌≡◌, refl, ◌∙◌}
use mathlib.Core.Bool.{Bool, true, false}
use mathlib.Core.List.{List, [], ◌∷◌, ◌++◌}
use native.Mathlib.Omega.{arith}
use multi_agent_testbed.Base.Tests.{ltb}

-- The digits of a number, on fuel; the number itself is enough.
unfoldable pub digits_from : ℕ → ℕ → List ℕ
digits_from zero n = n % 10 ∷ []
digits_from (suc fuel) n = elim (ltb n 10) [
  | true ↦ n ∷ []
  | false ↦ digits_from fuel (n / 10) ++ n % 10 ∷ []
]

-- `str(n)`
unfoldable pub digits : ℕ → List ℕ
unfolding digits_from
digits n = digits_from n n

-- `int(s)`, from the value of the digits before
unfoldable pub number_from : ℕ → List ℕ → ℕ
number_from before [] = before
number_from before (d ∷ ds) = number_from (10 * before + d) ds

unfoldable pub number : List ℕ → ℕ
unfolding number_from
number ds = number_from 0 ds

abbrev decimals : List String.String
decimals = "0" ∷ "1" ∷ "2" ∷ "3" ∷ "4" ∷ "5" ∷ "6" ∷ "7" ∷ "8" ∷ "9" ∷ []

abbrev digit_text : ℕ → List String.String → String.String
digit_text d [] = ""
digit_text zero (s ∷ ss) = s
digit_text (suc d) (s ∷ ss) = digit_text d ss

-- The text of a list of digits.
abbrev pub digits_text : List ℕ → String.String
digits_text [] = ""
digits_text (d ∷ ds) = String.◌++◌ (digit_text d decimals) (digits_text ds)

number_from-snoc :
    (before : ℕ) (ds : List ℕ) (d : ℕ)
    → number_from before (ds ++ d ∷ []) ≡ 10 * number_from before ds + d
unfolding number_from
number_from-snoc before [] d = refl
number_from-snoc before (e ∷ ds) d = number_from-snoc (10 * before + e) ds d

number-digits_from : (fuel n : ℕ) → n ≤ fuel → number_from 0 (digits_from fuel n) ≡ n
unfolding digits_from number_from
number-digits_from zero n h = omega arith
number-digits_from (suc fuel) n h = split (ltb n 10) refl (λ k. number-digits_from fuel (n / 10) k)
  where
    split :
        (b : Bool)
        → ltb n 10 ≡ b
        → (n / 10 ≤ fuel → number_from 0 (digits_from fuel (n / 10)) ≡ n / 10)
        → number_from 0
            (elim b [ true ↦ n ∷ [] | false ↦ digits_from fuel (n / 10) ++ n % 10 ∷ [] ])
          ≡ n
    split true e ih = omega arith
    split false e ih =
        number_from-snoc 0 (digits_from fuel (n / 10)) (n % 10)
        ∙ (let shorter = ih (omega arith) in omega (arith, shorter))

-- What `str` writes is what `int` reads.
pub number-digits : (n : ℕ) → number (digits n) ≡ n
unfolding number digits
number-digits n = number-digits_from n n (omega arith)
