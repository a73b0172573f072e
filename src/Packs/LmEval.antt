-- ===== src/Packs/LmEval.antt =====
-- src/testbed_packs/lm_eval/pack.py and source.py: where the items come from, the tasks made of
-- them, and how a pack is shaped to an experiment. What the files and the installed harness hold is
-- a parameter. The metadata of a case is left out.
use Prim.Native.String
use multi_agent_testbed.Base.{
  ℕ, zero, suc, ◌-◌, String, Bool, not, Option, none, some, List, [], ◌∷◌, map, ℤ, pos, negsuc,
  leb_ℤ, if◌then◌else◌, str_eq, contains, length, take, drop, Outcome, returned, raised, digits,
  digits_text,
}
use multi_agent_testbed.Contracts.Enums.{EvalSetKind}
use multi_agent_testbed.Contracts.Ids.{null, text, texts}
use multi_agent_testbed.Sdk.{TaskCase}

pub record Item : Type 0 where
  pub item_id : String
  pub input : String
  pub target : String
  pub choices : List String

-- One entry of a file: the id may be missing.
pub record Row : Type 0 where
  pub id : Option String
  pub input : String
  pub target : String
  pub choices : List String

infixr 65 ◌<>◌
abbrev pub ◌<>◌ : String → String → String
s <> t = String.◌++◌ s t

abbrev nth : ℕ → List String → String
nth n [] = ""
nth zero (s ∷ ss) = s
nth (suc n) (s ∷ ss) = nth n ss

abbrev zeros : ℕ → List ℕ → List ℕ
zeros zero ds = ds
zeros (suc n) ds = 0 ∷ zeros n ds

-- `f"{index:04d}"`: at least four digits
abbrev padded : ℕ → String
padded n = digits_text (zeros (4 - length (digits n)) (digits n))

abbrev row_id : String → ℕ → Option String → String
row_id prefix index none = prefix <> "_" <> padded index
row_id prefix index (some id) = id

-- `_from_rows`, from a first index
unfoldable pub from_rows : String → ℕ → List Row → List Item
from_rows prefix index [] = []
from_rows prefix index (row ∷ rows) =
    record {
      item_id = row_id prefix index row.id;
      input = row.input;
      target = row.target;
      choices = row.choices;
    }
    ∷ from_rows prefix (suc index) rows

-- What the shipped fixtures, a file and the harness's task hold; `none` where there is no such one.
pub record Datasets : Type 0 where
  pub fixture_rows : String → Option (List Row)
  pub jsonl_rows : String → Option (List Row)
  pub lm_eval_rows : String → String → Option (List Row)

pub data SourceError : Type 0 where
  no_such_file no_such_task unknown_source path_missing task_missing : SourceError
  no_evaluation_items unknown_metric : SourceError

-- The configuration, after the defaults and conversions of the `config.get` calls.
pub record LmEvalConfig : Type 0 where
  pub source : String
  pub fixture : String
  pub path : Option String
  pub task : Option String
  pub split : String
  pub limit : Option ℤ
  pub metric : String
  pub num_fewshot : ℤ
  pub eval_set_kind : EvalSetKind
  pub answer_hint : Bool

-- `xs[:n]`
abbrev pub slice_to : {A : Type 0} → ℤ → List A → List A
slice_to (pos n) xs = take n xs
slice_to (negsuc n) xs = take (length xs - suc n) xs

-- `xs[n:]`
abbrev pub slice_from : {A : Type 0} → ℤ → List A → List A
slice_from (pos n) xs = drop n xs
slice_from (negsuc n) xs = drop (length xs - suc n) xs

-- The loop of `load_lm_eval` stops at the first index that is not below the limit.
abbrev below : {A : Type 0} → Option ℤ → List A → List A
below none xs = xs
below (some (pos n)) xs = take n xs
below (some (negsuc n)) xs = []

abbrev limited : {A : Type 0} → Option ℤ → List A → List A
limited none xs = xs
limited (some n) xs = slice_to n xs

abbrev loaded : SourceError → String → Option (List Row) → Outcome SourceError (List Item)
loaded error prefix none = raised error
loaded error prefix (some rows) = returned (from_rows prefix 0 rows)

-- What follows the loading; an exception passes through.
abbrev pub loaded_then :
    {A B : Type 0} → (A → Outcome SourceError B) → Outcome SourceError A → Outcome SourceError B
loaded_then f (returned a) = f a
loaded_then f (raised e) = raised e

-- `if not path: raise ValueError`
abbrev required :
    {A : Type 0}
    → Option String
    → SourceError
    → (String → Outcome SourceError A)
    → Outcome SourceError A
required none error f = raised error
required (some s) error f = if str_eq s "" then raised error else f s

-- `load_items`, with `load_fixture`, `load_jsonl` and `load_lm_eval`
unfoldable pub load_items : Datasets → LmEvalConfig → Outcome SourceError (List Item)
unfolding from_rows
load_items d c =
    if str_eq c.source "fixture"
    then loaded_then (λ items. returned (limited c.limit items))
        (loaded no_such_file c.fixture (d.fixture_rows c.fixture))
    else if str_eq c.source "jsonl"
    then required c.path path_missing (λ path.
      loaded_then (λ items. returned (limited c.limit items))
        (loaded no_such_file "item" (d.jsonl_rows path)))
    else if str_eq c.source "lm_eval"
    then required c.task task_missing (λ task.
      loaded_then (λ items. returned (below c.limit items))
        (loaded no_such_task task (d.lm_eval_rows task c.split)))
    else raised unknown_source

pub record LmEvalTasks : Type 0 where
  pub items : List Item
  pub fewshot : List Item
  pub eval_set_kind : EvalSetKind
  pub answer_hint : Bool

abbrev blocks : List Item → String
blocks [] = ""
blocks (shot ∷ []) = "Q: " <> shot.input <> "\nA: " <> shot.target
blocks (shot ∷ next ∷ rest) =
    "Q: " <> shot.input <> "\nA: " <> shot.target <> "\n\n" <> blocks (next ∷ rest)

-- `LmEvalTasks._prefix`
unfoldable pub prefix_of : List Item → String
prefix_of [] = ""
prefix_of (shot ∷ rest) = blocks (shot ∷ rest) <> "\n\n"

-- `chr(ord("A") + i)`, for up to 26 choices
abbrev letters : List String
letters =
    "A" ∷ "B" ∷ "C" ∷ "D" ∷ "E" ∷ "F" ∷ "G" ∷ "H" ∷ "I" ∷ "J" ∷ "K" ∷ "L" ∷ "M" ∷ "N" ∷ "O" ∷ "P"
    ∷ "Q" ∷ "R" ∷ "S" ∷ "T" ∷ "U" ∷ "V" ∷ "W" ∷ "X" ∷ "Y" ∷ "Z" ∷ []

abbrev options : ℕ → List String → String
options i [] = ""
options i (choice ∷ []) = "  " <> nth i letters <> ". " <> choice
options i (choice ∷ next ∷ rest) =
    "  " <> nth i letters <> ". " <> choice <> "\n" <> options (suc i) (next ∷ rest)

abbrev instruction_suffix : String
instruction_suffix =
    "\n\nSubmit your final answer with the `submit` action. Answer only; do not restate the question."

unfoldable pub instruction_of : String → Item → String
instruction_of prefix item = elim item.choices [
  | [] ↦ prefix <> "Q: " <> item.input <> instruction_suffix
  | choice ∷ rest ↦
      prefix
      <> "Q: "
      <> item.input
      <> "\nOptions:\n"
      <> options 0 (choice ∷ rest)
      <> instruction_suffix
]

unfoldable pub case_of : LmEvalTasks → Item → TaskCase
unfolding prefix_of instruction_of
case_of t item = record {
  task_id = item.item_id;
  instruction = instruction_of (prefix_of t.fewshot) item;
  initial_state =
      ("submitted", null) ∷ ("_target", text item.target) ∷ ("_choices", texts item.choices) ∷ [];
  public_facts = ("answer_format", text "a single short answer") ∷ [];
  private_facts = if t.answer_hint then ("solver", ("answer", text item.target) ∷ []) ∷ [] else [];
  eval_set_kind = t.eval_set_kind;
}

-- `LmEvalTasks.cases`
unfoldable pub cases : LmEvalTasks → List TaskCase
unfolding case_of
cases t = map (case_of t) t.items

abbrev pub metrics : List String
metrics = "exact_match" ∷ "normalized_match" ∷ "numeric" ∷ "multiple_choice" ∷ []

-- `configure`: the tasks, and the metric of the verifier.
unfoldable pub configure : Datasets → LmEvalConfig → Outcome SourceError (LmEvalTasks × String)
unfolding load_items
configure d c =
    loaded_then
      (λ items.
        if leb_ℤ (pos (length items)) c.num_fewshot
        then raised no_evaluation_items
        else if not (contains metrics c.metric)
        then raised unknown_metric
        else returned (
          record {
            items = slice_from c.num_fewshot items;
            fewshot = slice_to c.num_fewshot items;
            eval_set_kind = c.eval_set_kind;
            answer_hint = c.answer_hint;
          },
          c.metric,
        ))
      (load_items d c)
