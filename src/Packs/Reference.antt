-- ===== src/Packs/Reference.antt =====
-- Whether the reference answer of an item is judged to be correct.
use multi_agent_testbed.Base.{
  ◌≡◌, refl, ap, ◌∙◌, String, Bool, true, false, not, ◌&&◌, if◌then◌else◌, Option, none, some, List,
  str_eq, eq_iff, Outcome, returned, raised, arith,
}
use multi_agent_testbed.Packs.Python.{is_space, strip, strip_left, strip_right}
use multi_agent_testbed.Packs.LmEval.{SourceError}
use multi_agent_testbed.Packs.Matching.{
  Unicode, normalize, keep, is_punctuation, collapse, without_articles,
}
use multi_agent_testbed.Packs.Answers.{
  MatchResult, resolve_choice, resolve_stripped, score_answer, passes, or_else,
}

strip_right_idem : (s : String) → strip_right (strip_right s) ≡ strip_right s
strip_right_idem String.[] = refl
strip_right_idem (String.◌∷◌ c s) =
    split (strip_right_idem s) (is_space c && str_eq (strip_right s) "") refl
  where
    split :
        strip_right (strip_right s) ≡ strip_right s
        → (b : Bool) → (is_space c && str_eq (strip_right s) "") ≡ b
        → strip_right (if b then "" else String.◌∷◌ c (strip_right s))
          ≡ (if b then "" else String.◌∷◌ c (strip_right s))
    split same true e = refl
    split same false e = rw (same, e) refl

clean_head : (s : String) → strip_left (strip_right (strip_left s)) ≡ strip_right (strip_left s)
clean_head String.[] = refl
clean_head (String.◌∷◌ c s) = split (clean_head s) (is_space c) refl
  where
    split :
        strip_left (strip_right (strip_left s)) ≡ strip_right (strip_left s)
        → (b : Bool) → is_space c ≡ b
        → strip_left (strip_right (if b then strip_left s else String.◌∷◌ c s))
          ≡ strip_right (if b then strip_left s else String.◌∷◌ c s)
    split same true e = same
    split same false e = rw (e, e) refl

strip_idem : (s : String) → strip (strip s) ≡ strip s
strip_idem s = ap strip_right (clean_head s) ∙ strip_right_idem (strip_left s)

abbrev pub is_correct : Outcome SourceError MatchResult → Bool
is_correct (returned r) = r.correct
is_correct (raised e) = false

-- Whether an answer is resolved, and to a text that is not empty.
abbrev pub is_named : Option String → Bool
is_named o = passes o (λ s. not (str_eq s ""))

str_eq_self : (s : String) → str_eq s s ≡ true
str_eq_self s = (eq_iff s s).1 refl

resolve_choice-strip :
    (u : Unicode) (choices : List String) (s : String)
    → resolve_choice u choices (strip s) ≡ resolve_choice u choices s
unfolding resolve_choice
resolve_choice-strip u choices s =
    ap (λ t. if str_eq t "" then none else resolve_stripped u choices t) (strip_idem s)

normalize-strip : (u : Unicode) (s : String) → normalize u (strip s) ≡ normalize u s
unfolding normalize
normalize-strip u s =
    ap
      (λ t.
        strip
          (collapse false (without_articles u "" (keep (λ c. not (is_punctuation c)) (u.lower t)))))
      (strip_idem s)

-- A resolved answer, against what is expected of the same answer.
found_again :
    (o : Option String) (rest : String)
    → str_eq rest "" ≡ false
    → passes o (λ found. str_eq found (or_else o rest)) ≡ is_named o
found_again none rest h = refl
found_again (some s) rest h = ground (arith, eq_iff s s, eq_iff s "", eq_iff s rest, eq_iff rest "")

resolved_again :
    (u : Unicode) (choices : List String) (target : String)
    → passes
        (resolve_choice u choices target)
        (λ found. str_eq found (or_else (resolve_choice u choices target) (strip target)))
      ≡ is_named (resolve_choice u choices target)
unfolding resolve_choice
resolved_again u choices target = split (str_eq (strip target) "") refl
  where
    tried : Bool → Option String
    tried b = if b then none else resolve_stripped u choices (strip target)

    split :
        (b : Bool)
        → str_eq (strip target) "" ≡ b
        → passes (tried b) (λ found. str_eq found (or_else (tried b) (strip target)))
          ≡ is_named (tried b)
    split true e = refl
    split false e = found_again (resolve_stripped u choices (strip target)) (strip target) e

-- An agent that submits an item's reference answer is judged to be correct by exact_match and by
-- normalized_match. By multiple_choice it is exactly if the answer is resolved to a text that is not
-- empty.
pub score_answer-target :
    (u : Unicode) (target : String) (choices : List String)
    → (is_correct (score_answer u target target choices "exact_match") ≡ true)
      × (is_correct (score_answer u target target choices "normalized_match") ≡ true)
      × (is_correct (score_answer u target target choices "multiple_choice")
          ≡ is_named (resolve_choice u choices target))
unfolding score_answer
score_answer-target u target choices = (
  str_eq_self (strip target),
  rw (normalize-strip u target) (str_eq_self (normalize u target)),
  rw (resolve_choice-strip u choices target) (resolved_again u choices target),
)
