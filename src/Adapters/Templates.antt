-- ===== src/Adapters/Templates.antt =====
-- `_render` of src/testbed_adapters/agents/python/scripted.py: the placeholders of a text are
-- replaced, and those that nothing replaced are taken out by two loops, each on fuel.
use Prim.Native.Char.{Char, code}
use Prim.Native.String
use multi_agent_testbed.Base.{
  ℕ, zero, suc, ◌-◌, ◌<◌, ◌≡◌, refl, String, Option, none, some, [], ◌∷◌, Dict, if◌then◌else◌, ◌==◌,
  starts_with, Outcome, returned, raised, Bool-cases, inl, inr, arith,
}
use multi_agent_testbed.Contracts.Ids.{Json}
use multi_agent_testbed.Sdk.{AgentRequest}
use multi_agent_testbed.Packs.Python.{Python, str_of}

infixr 65 ◌<>◌
abbrev ◌<>◌ : String → String → String
s <> t = String.◌++◌ s t

-- How many characters a text has.
abbrev pub chars : String → ℕ
chars String.[] = 0
chars (String.◌∷◌ c s) = suc (chars s)

-- `s.replace(old, new)`, with the characters of `old` that are still to be passed over.
abbrev replace_from : String → String → ℕ → String → String
replace_from old new skip String.[] = ""
replace_from old new (suc skip) (String.◌∷◌ c s) = replace_from old new skip s
replace_from old new zero (String.◌∷◌ c s) =
    if starts_with (String.◌∷◌ c s) old
    then new <> replace_from old new (chars old - 1) s
    else String.◌∷◌ c (replace_from old new zero s)

-- `s.replace(old, new)`, for an `old` that is not empty
abbrev pub replace : String → String → String → String
replace old new s = replace_from old new 0 s

unfoldable pub replace_all : Python → String → Dict Json → String → String
replace_all py prefix [] s = s
replace_all py prefix ((key, value) ∷ rest) s =
    replace_all py prefix rest (replace (prefix <> key <> "}") (str_of py value) s)

-- What one turn of a `while` loop does: nothing is left to take out, the first placeholder has been
-- taken out, or `index` has not found its end.
pub data Removal : Type 0 where
  clean unclosed : Removal
  removed : String → Removal

-- What stands after the first closing brace.
abbrev pub after_close : String → Option String
after_close String.[] = none
after_close (String.◌∷◌ c s) = if code c == 125 then some s else after_close s

abbrev keep : Char → Removal → Removal
keep c clean = clean
keep c unclosed = unclosed
keep c (removed s) = removed (String.◌∷◌ c s)

abbrev closed : Option String → Removal
closed none = unclosed
closed (some s) = removed s

unfoldable pub remove_first : String → String → Removal
remove_first opening String.[] = clean
remove_first opening (String.◌∷◌ c s) =
    if starts_with (String.◌∷◌ c s) opening
    then closed (after_close (String.◌∷◌ c s))
    else keep c (remove_first opening s)

pub data RenderError : Type 0 where
  unclosed_placeholder out_of_fuel : RenderError

-- `while opening in out: …`
unfoldable pub remove_all : ℕ → String → String → Outcome RenderError String
unfolding remove_first
remove_all zero opening s = raised out_of_fuel
remove_all (suc fuel) opening s = elim (remove_first opening s) [
  | clean ↦ returned s
  | unclosed ↦ raised unclosed_placeholder
  | removed t ↦ remove_all fuel opening t
]

abbrev then_remove : String → Outcome RenderError String → Outcome RenderError String
then_remove opening (raised e) = raised e
then_remove opening (returned s) = remove_all (suc (chars s)) opening s

abbrev inbox_text : Option (String × String × Dict Json) → String
inbox_text none = ""
inbox_text (some (sender, content, payload)) = content

-- The text once every known placeholder is replaced.
unfoldable pub replaced : Python → String → AgentRequest → String
unfolding replace_all
replaced py template request = replace_all py "{obs." request.observation (
    replace_all py "{private." request.private_facts (
      replace "{inbox}" (inbox_text request.inbox)
        (replace "{task}" request.instruction (replace "{agent_id}" request.agent_id template))))

-- `_render`
unfoldable pub render : Python → String → AgentRequest → Outcome RenderError String
unfolding replaced remove_all
render py template request =
    let out = replaced py template request in
    then_remove "{obs." (remove_all (suc (chars out)) "{private." out)

-- Each turn of the loop leaves a shorter text.
abbrev IsShorter : ℕ → Removal → Type 0
IsShorter n clean = Unit
IsShorter n unclosed = Unit
IsShorter n (removed s) = chars s < n

abbrev IsShorterText : ℕ → Option String → Type 0
IsShorterText n none = Unit
IsShorterText n (some s) = chars s < n

loosened : (n : ℕ) (o : Option String) → IsShorterText n o → IsShorterText (suc n) o
loosened n none h = tt
loosened n (some s) h = omega (arith, h)

after_close-IsShorterText : (s : String) → IsShorterText (chars s) (after_close s)
after_close-IsShorterText String.[] = tt
after_close-IsShorterText (String.◌∷◌ c s) = elim (Bool-cases (code c == 125)) [
  | inl e ↦ rw e (omega arith)
  | inr e ↦ rw e (loosened (chars s) (after_close s) (after_close-IsShorterText s))
]

keep-IsShorter : (c : Char) (n : ℕ) (r : Removal) → IsShorter n r → IsShorter (suc n) (keep c r)
keep-IsShorter c n clean h = tt
keep-IsShorter c n unclosed h = tt
keep-IsShorter c n (removed s) h = omega (arith, h)

closed-IsShorter : (n : ℕ) (o : Option String) → IsShorterText n o → IsShorter n (closed o)
closed-IsShorter n none h = tt
closed-IsShorter n (some s) h = h

remove_first-IsShorter : (opening s : String) → IsShorter (chars s) (remove_first opening s)
unfolding remove_first
remove_first-IsShorter opening String.[] = tt
remove_first-IsShorter opening (String.◌∷◌ c s) =
    elim (Bool-cases (starts_with (String.◌∷◌ c s) opening)) [
      | inl e ↦ rw e (closed-IsShorter _ _ (after_close-IsShorterText (String.◌∷◌ c s)))
      | inr e ↦ rw e (keep-IsShorter c _ _ (remove_first-IsShorter opening s))
    ]

-- The text has no placeholder of that opening left, or the exception is that one has no end.
abbrev pub IsResolved : String → Outcome RenderError String → Type 0
IsResolved opening (returned s) = remove_first opening s ≡ clean
IsResolved opening (raised e) = e ≡ unclosed_placeholder

-- Fuel for one turn more than the text has characters is enough.
remove_all-IsResolved :
    (fuel : ℕ) (opening s : String)
    → chars s < fuel
    → IsResolved opening (remove_all fuel opening s)
unfolding remove_all
remove_all-IsResolved zero opening s h = absurd (omega (arith, h))
remove_all-IsResolved (suc fuel) opening s h =
    go (remove_first opening s) refl (remove_first-IsShorter opening s)
      (λ t less. remove_all-IsResolved fuel opening t (omega (arith, less, h)))
  where
    go :
        (r : Removal)
        → remove_first opening s ≡ r
        → IsShorter (chars s) r
        → ((t : String) → chars t < chars s → IsResolved opening (remove_all fuel opening t))
        → IsResolved opening (elim r [
          | clean ↦ returned s
          | unclosed ↦ raised unclosed_placeholder
          | removed t ↦ remove_all fuel opening t
        ])
    go clean e less rest = e
    go unclosed e less rest = refl
    go (removed t) e less rest = rest t less

then_remove-IsResolved :
    (opening first : String) (o : Outcome RenderError String)
    → IsResolved first o
    → IsResolved opening (then_remove opening o)
then_remove-IsResolved opening first (raised e) h = h
then_remove-IsResolved opening first (returned s) h =
    remove_all-IsResolved (suc (chars s)) opening s (omega arith)

-- Rendering a step of a script ends: it gives a text without an unresolved observation, or fails
-- because a placeholder is never closed. Both loops are given one turn more than their text has
-- characters, and never need more.
pub render-IsResolved :
    (py : Python) (template : String) (request : AgentRequest)
    → IsResolved "{obs." (render py template request)
unfolding render
render-IsResolved py template request = then_remove-IsResolved "{obs." "{private." _ (
    remove_all-IsResolved (suc (chars (replaced py template request))) "{private."
      (replaced py template request) (omega arith))
