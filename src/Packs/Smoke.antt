-- ===== src/Packs/Smoke.antt =====
-- src/testbed_packs/smoke/pack.py: the three tasks, the action handlers and the verifiers. The
-- claims in the state are always a dictionary: the task puts an empty one there, and only the claim
-- handler writes them.
use multi_agent_testbed.Base.{
  ℕ, ◌/◌, String, Bool, true, false, not, ◌&&◌, Option, none, some, List, [], ◌∷◌, map, Dict, keys,
  values, lookup, insert, ℤ, pos, negsuc, ◌+ℤ◌, leb_ℤ, if◌then◌else◌, str_eq, contains, all, get_or,
}
use multi_agent_testbed.Contracts.Enums.{frozen_eval}
use multi_agent_testbed.Contracts.Ids.{as_dict, Json, null, bool, num, real, text, object}
use multi_agent_testbed.Contracts.Events.{Event}
use multi_agent_testbed.Contracts.Results.{VerifierResult}
use multi_agent_testbed.Sdk.{WorldAction, StateChange, WorldSnapshotView, TaskCase, ActionHandler}
use multi_agent_testbed.Packs.Python.{
  Python, strip, str_of, float_of, is_null, Float, finite, is_below_zero, float_json,
}

-- `POT`, in millionths
abbrev pub pot : ℕ
pot = 10000000

abbrev pub task : String → String → Dict Json → Dict Json → Dict (Dict Json) → TaskCase
task task_id instruction initial_state public_facts private_facts = record {
  task_id = task_id;
  instruction = instruction;
  initial_state = initial_state;
  public_facts = public_facts;
  private_facts = private_facts;
  eval_set_kind = frozen_eval;
}

-- `SmokeTasks.cases`, without the metadata
abbrev pub smoke_cases : List TaskCase
smoke_cases =
    task "solo_lookup" "Look up the access code and submit it." (("submitted", null) ∷ [])
      (("expected_length", num 8) ∷ []) (("solo", ("code", text "AC-40921") ∷ []) ∷ [])
    ∷ task "coop_codeword"
        "Each of you holds half of the code word. Combine them and submit the whole word exactly once."
        (("submitted", null) ∷ []) (("format", text "two halves, first then second") ∷ [])
        (("researcher_1", ("share", text "alpha") ∷ [])
          ∷ ("researcher_2", ("share", text "omega") ∷ [])
          ∷ [])
    ∷ task "mixed_split"
        "There is a pot of 10. Claim a share. If the claims together exceed the pot, everyone gets nothing."
        (("claims", object []) ∷ []) (("pot", real (pos pot)) ∷ [])
        (("trader_1", ("private_value", real (pos 6000000)) ∷ [])
          ∷ ("trader_2", ("private_value", real (pos 4000000)) ∷ [])
          ∷ [])
    ∷ []

abbrev pub rejected : String → StateChange
rejected reason = record {
  updates = [];
  facts_to = [];
  messages = [];
  finished = false;
  note = "";
  rejected_reason = some reason;
}

abbrev pub changed : Dict Json → Bool → String → StateChange
changed updates finished note = record {
  updates = updates;
  facts_to = [];
  messages = [];
  finished = finished;
  note = note;
  rejected_reason = none;
}

-- `SubmitHandler.apply`
unfoldable pub apply_submit : Python → WorldAction → WorldSnapshotView → StateChange
apply_submit py action state =
    let answer = strip (str_of py (get_or (lookup "answer" action.args) (text ""))) in
    if str_eq answer ""
    then rejected "empty submission"
    else if not (is_null (get_or (lookup "submitted" state.state) null))
    then rejected "already submitted"
    else changed (("submitted", text answer) ∷ ("submitted_by", text action.actor_id) ∷ []) true
        "submitted"

abbrev pub claims_in : WorldSnapshotView → Dict Json
claims_in state = as_dict (get_or (lookup "claims" state.state) (object []))

-- `set(claims) >= set(state.agent_ids)`
abbrev pub everyone_claimed : {V : Type 0} → Dict V → WorldSnapshotView → Bool
everyone_claimed claims state = all (contains (keys claims)) state.agent_ids

abbrev pub record_claim : Dict Json → WorldSnapshotView → StateChange
record_claim claims state =
    changed (("claims", object claims) ∷ []) (everyone_claimed claims state)
      (if everyone_claimed claims state then "all claims in" else "claim recorded")

abbrev pub apply_amount : Option Float → WorldAction → WorldSnapshotView → StateChange
apply_amount none action state = rejected "claim amount is not a number"
apply_amount (some amount) action state =
    if is_below_zero amount
    then rejected "claim amount is negative"
    else if contains (keys (claims_in state)) action.actor_id
    then rejected "already claimed"
    else record_claim (insert action.actor_id (float_json amount) (claims_in state)) state

-- `ClaimHandler.apply`
unfoldable pub apply_claim : Python → WorldAction → WorldSnapshotView → StateChange
apply_claim py action state =
    apply_amount (float_of py (get_or (lookup "amount" action.args) (num 0))) action state

-- `NoopHandler.apply`
unfoldable pub apply_noop : WorldAction → WorldSnapshotView → StateChange
apply_noop action state = changed [] false "noop"

abbrev pub smoke_handlers : Python → List ActionHandler
smoke_handlers py =
    record { handles = "submit" ∷ []; apply = apply_submit py }
    ∷ record { handles = "claim" ∷ []; apply = apply_claim py }
    ∷ record { handles = "noop" ∷ []; apply = apply_noop }
    ∷ []

-- A whole payoff, or none.
abbrev pub full_mark : Bool → ℤ
full_mark true = pos 1000000
full_mark false = pos 0

-- `SubmissionVerifier.verify`
unfoldable pub verify_submission : Python → String → WorldSnapshotView → List Event → VerifierResult
verify_submission py expected state events =
    let submitted = get_or (lookup "submitted" state.state) null in
    let success = not (is_null submitted) && str_eq (str_of py submitted) expected in
    record {
      success = success;
      reward = full_mark success;
      per_agent_payoff = map (λ a. (a, full_mark success)) state.agent_ids;
      detail = ("submitted", submitted) ∷ ("expected", text expected) ∷ [];
    }

-- `{k: float(v) for k, v in claims.items()}`; `none` where a `float` raises, or gives no finite
-- number. A verdict on claims that are not finite is left out.
unfoldable pub claimed : Python → Dict Json → Option (Dict ℤ)
claimed py [] = some []
claimed py ((k, v) ∷ rest) = elim (float_of py v) [
  | some (finite z) ↦ elim (claimed py rest) [ none ↦ none | some zs ↦ some ((k, z) ∷ zs) ]
  | _ ↦ none
]

-- `sum(values)`
abbrev pub total : List ℤ → ℤ
total [] = pos 0
total (z ∷ zs) = z +ℤ total zs

-- A tenth, rounded down: the share of the pot of ten.
abbrev pub share_of_pot : ℤ → ℤ
share_of_pot (pos n) = pos (n / 10)
share_of_pot (negsuc n) = negsuc (n / 10)

abbrev pub payoffs : Bool → Dict ℤ → List String → Dict ℤ
payoffs overclaimed claims =
    map (λ a. (a, if overclaimed then pos 0 else get_or (lookup a claims) (pos 0)))

-- `SplitVerifier.verify`, once the claims are numbers. The agents are the keys of a dictionary.
unfoldable pub split : Dict ℤ → WorldSnapshotView → VerifierResult
split claims state =
    let sum_claimed = total (values claims) in
    let overclaimed = not (leb_ℤ sum_claimed (pos pot)) in
    let paid = payoffs overclaimed claims state.agent_ids in
    record {
      success = everyone_claimed claims state && not overclaimed;
      reward = share_of_pot (total (values paid));
      per_agent_payoff = paid;
      detail =
          ("claims", object (map (λ kv. (kv.0, real kv.1)) claims))
          ∷ ("total_claimed", real sum_claimed)
          ∷ ("pot", real (pos pot))
          ∷ ("overclaimed", bool overclaimed)
          ∷ ("everyone_claimed", bool (everyone_claimed claims state))
          ∷ [];
    }

unfoldable pub verify_split : Python → WorldSnapshotView → List Event → Option VerifierResult
unfolding claimed split
verify_split py state events = elim (claimed py (claims_in state)) [
  | none ↦ none
  | some claims ↦ some (split claims state)
]
