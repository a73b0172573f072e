-- ===== src/Tests/Packs.antt =====
-- The packs at concrete inputs.
use multi_agent_testbed.Base.{
  digits, ℕ, String, ◌≡◌, ◌⊎◌, ◌<◌, refl, true, false, none, some, List, [], ◌∷◌, ◌++◌, pos, leb_ℤ,
  values, All, contains, length, lookup, ◌+ℤ◌, insert, update,
}
use multi_agent_testbed.Contracts.Enums.{frozen_eval}
use multi_agent_testbed.Contracts.Ids.{null, num, object, real, text, not_a_number, not_finite}
use multi_agent_testbed.Contracts.Results.{VerifierResult}
use multi_agent_testbed.World.State.{World, visible_state}
use multi_agent_testbed.World.Hidden.{visible_state-hides}
use multi_agent_testbed.Tests.Data.{world}
use multi_agent_testbed.Sdk.{WorldAction, WorldSnapshotView}
use multi_agent_testbed.Packs.Python.{Python, strip, special}
use multi_agent_testbed.Packs.Smoke.{pot, claims_in, total, verify_split, split, apply_claim}
use multi_agent_testbed.Packs.Claims.{
  AreClaims, AreNotNegative, after, verify_split-pays, apply_claim-AreClaims,
}
use multi_agent_testbed.Packs.LmEval.{
  Row, Item, Datasets, LmEvalConfig, LmEvalTasks, from_rows, load_items, configure, cases,
}
use multi_agent_testbed.Packs.FewShot.{ids, configure-IsSplit, configure-hides}

abbrev python : Python
python = record { repr = λ v. "?"; parse_float = λ s. none }

-- One trader has claimed 6 of the pot of 10.
abbrev state : WorldSnapshotView
state = record {
  logical_time = 1;
  state = ("claims", object (("trader_1", real (pos 6000000)) ∷ [])) ∷ [];
  agent_ids = "trader_1" ∷ "trader_2" ∷ [];
  roles = [];
  private_facts = [];
  payoffs = [];
}

abbrev claim : ℕ → WorldAction
claim n = record { kind = "claim"; actor_id = "trader_2"; args = ("amount", num n) ∷ [] }

apply_claim-AreClaims_example :
    AreClaims (claims_in (after (apply_claim python (claim 5) state) state))
unfolding lookup
apply_claim-AreClaims_example =
    apply_claim-AreClaims python (claim 5) state refl ((6000000, refl), tt)

-- A claim that is read as not-a-number is not below 0, and is recorded.
nan_recorded :
    claims_in (
      after
        (apply_claim
          (record python { parse_float = λ s. some (special not_a_number) })
          (record { kind = "claim"; actor_id = "trader_2"; args = ("amount", text "nan") ∷ [] })
          state)
        state)
    ≡ ("trader_1", real (pos 6000000)) ∷ ("trader_2", not_finite not_a_number) ∷ []
unfolding apply_claim lookup insert update
nan_recorded = refl

verify_split-pays_example :
    (r : VerifierResult) × (verify_split python state [] ≡ some r)
    × (leb_ℤ (total (values r.per_agent_payoff)) (pos pot) ≡ true)
    × AreNotNegative r.per_agent_payoff
    × (leb_ℤ r.reward (pos 1000000) ≡ true)
unfolding lookup
verify_split-pays_example =
    verify_split-pays python state [] ((6000000, refl), tt) (refl, (refl, tt))

-- A claim of 5 next to the claim of 6 is more than the pot: nobody is paid.
overclaimed :
    (split (("trader_1", pos 6000000) ∷ ("trader_2", pos 5000000) ∷ []) state).reward ≡ pos 0
unfolding split ◌+ℤ◌ lookup
overclaimed = refl

stripped : strip "  42 " ≡ "42"
stripped = refl

abbrev row : String → String → Row
row input target = record { id = none; input = input; target = target; choices = [] }

abbrev datasets : Datasets
datasets = record {
  fixture_rows = λ name. some (row "1 + 1" "2" ∷ row "1 + 2" "3" ∷ row "2 + 2" "4" ∷ []);
  jsonl_rows = λ path. none;
  lm_eval_rows = λ name part. none;
}

abbrev config : LmEvalConfig
config = record {
  source = "fixture";
  fixture = "sums";
  path = none;
  task = none;
  split = "test";
  limit = none;
  metric = "numeric";
  num_fewshot = pos 1;
  eval_set_kind = frozen_eval;
  answer_hint = false;
}

abbrev item : String → String → String → Item
item item_id input target = record {
  item_id = item_id;
  input = input;
  target = target;
  choices = [];
}

abbrev loaded_items : List Item
loaded_items =
    item "sums_0000" "1 + 1" "2" ∷ item "sums_0001" "1 + 2" "3" ∷ item "sums_0002" "2 + 2" "4" ∷ []

abbrev tasks : LmEvalTasks
tasks = record {
  items = item "sums_0001" "1 + 2" "3" ∷ item "sums_0002" "2 + 2" "4" ∷ [];
  fewshot = item "sums_0000" "1 + 1" "2" ∷ [];
  eval_set_kind = frozen_eval;
  answer_hint = false;
}

configure-IsSplit_example :
    (tasks.fewshot ++ tasks.items ≡ loaded_items)
    × ((leb_ℤ (pos 0) config.num_fewshot ≡ false) ⊎ (0 < length tasks.items))
unfolding load_items from_rows configure digits
configure-IsSplit_example = configure-IsSplit datasets config loaded_items tasks "numeric" refl refl

configure-hides_example : All (λ e. contains (ids tasks.fewshot) e.task_id ≡ false) (cases tasks)
unfolding load_items from_rows configure digits
configure-hides_example =
    configure-hides datasets config loaded_items tasks "numeric" refl (refl, (refl, (refl, tt)))
      refl

-- The tasks put the answer into the World's state; no agent observes it.
abbrev quiz : World
quiz = record world { state = ("submitted", null) ∷ ("_target", text "3") ∷ [] }

visible_state-hides_example : lookup "_target" (visible_state "ada" quiz) ≡ none
unfolding lookup
visible_state-hides_example = visible_state-hides "ada" quiz "_target" refl refl refl
