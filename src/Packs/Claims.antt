-- ===== src/Packs/Claims.antt =====
-- The mixed-motive task never pays out more than its pot.
use multi_agent_testbed.Base.{
  ℕ, ◌+◌, ◌≤◌, ◌≡◌, refl, sym, ap, String, Bool, true, false, not, Option, none, some, List, [],
  ◌∷◌, map, Dict, keys, values, lookup, insert, ℤ, pos, negsuc, ◌+ℤ◌, leb_ℤ, leb, if◌then◌else◌,
  str_eq, contains, sum, All, get_or, arith, Bool-cases, inl, inr, str_eq→eq, leb→le, le→leb,
  update, str_eq_comm, subst, eq_refl,
}
use multi_agent_testbed.Contracts.Ids.{entries, Json, real, object, fields, num}
use multi_agent_testbed.Contracts.Events.{Event}
use multi_agent_testbed.Contracts.Results.{VerifierResult}
use multi_agent_testbed.Sdk.{WorldSnapshotView, WorldAction, StateChange}
use multi_agent_testbed.Packs.Python.{Python, Float, finite, special, float_of}
use multi_agent_testbed.Packs.Smoke.{
  pot, claims_in, claimed, total, payoffs, split, verify_split, apply_claim, apply_amount,
}

-- Every claim is an amount that is not negative.
abbrev pub AreClaims : Dict Json → Type 0
AreClaims = All (λ kv. (n : ℕ) × (kv.1 ≡ real (pos n)))

-- No text stands twice in the list.
abbrev pub AreDistinct : List String → Type 0
AreDistinct [] = Unit
AreDistinct (a ∷ rest) = (contains rest a ≡ false) × AreDistinct rest

claim_of : String → Dict ℕ → ℕ
claim_of a [] = 0
claim_of a ((k, n) ∷ rest) = if str_eq k a then n else claim_of a rest

sum_claims-cons :
    (k : String) (n : ℕ) (claims : Dict ℕ) (agents : List String)
    → AreDistinct agents
    → sum (map (λ a. claim_of a ((k, n) ∷ claims)) agents)
      ≤ (if contains agents k then n else 0) + sum (map (λ a. claim_of a claims) agents)
unfolding claim_of
sum_claims-cons k n claims [] d = omega arith
sum_claims-cons k n claims (a ∷ agents) d =
    let rest = sum_claims-cons k n claims agents d.1 in
    elim (Bool-cases (str_eq k a)) [
      | inl e ↦
          let absent = subst (λ x. contains agents x ≡ false) (sym (str_eq→eq k a e)) d.0 in
          rw (str_eq_comm a k, e) (ground (arith, rest, absent))
      | inr e ↦ rw (str_eq_comm a k, e) (omega (arith, rest))
    ]

sum_claims-le :
    (claims : Dict ℕ) (agents : List String)
    → AreDistinct agents
    → sum (map (λ a. claim_of a claims) agents) ≤ sum (values claims)
unfolding claim_of
sum_claims-le [] [] d = omega arith
sum_claims-le [] (a ∷ agents) d = omega (arith, sum_claims-le [] agents d.1)
sum_claims-le ((k, n) ∷ claims) agents d =
    ground (arith, sum_claims-cons k n claims agents d, sum_claims-le claims agents d)

-- The amounts of claims that are not negative.
abbrev as_ℤ : Dict ℕ → Dict ℤ
as_ℤ = map (λ kv. (kv.0, pos kv.1))

claimed_of_AreClaims :
    (py : Python) (claims : Dict Json)
    → AreClaims claims
    → (amounts : Dict ℕ) × (claimed py claims ≡ some (as_ℤ amounts))
unfolding claimed
claimed_of_AreClaims py [] h = ([], refl)
claimed_of_AreClaims py ((k, v) ∷ rest) ((n, e), h) =
    let (amounts, later) = claimed_of_AreClaims py rest h in ((k, n) ∷ amounts, rw (e, later) refl)

total-as_ℤ : (amounts : Dict ℕ) → total (values (as_ℤ amounts)) ≡ pos (sum (values amounts))
unfolding ◌+ℤ◌
total-as_ℤ [] = refl
total-as_ℤ ((k, n) ∷ rest) = rw (total-as_ℤ rest) ground arith

lookup-as_ℤ :
    (a : String) (amounts : Dict ℕ)
    → get_or (lookup a (as_ℤ amounts)) (pos 0) ≡ pos (claim_of a amounts)
unfolding lookup claim_of
lookup-as_ℤ a [] = refl
lookup-as_ℤ a ((k, n) ∷ rest) = elim (Bool-cases (str_eq k a)) [
  | inl e ↦ rw e refl
  | inr e ↦ rw e (lookup-as_ℤ a rest)
]

abbrev paid_amounts : Bool → Dict ℕ → List String → Dict ℕ
paid_amounts over amounts = map (λ a. (a, if over then 0 else claim_of a amounts))

payoffs-as_ℤ :
    (over : Bool) (amounts : Dict ℕ) (agents : List String)
    → payoffs over (as_ℤ amounts) agents ≡ as_ℤ (paid_amounts over amounts agents)
payoffs-as_ℤ over amounts [] = refl
payoffs-as_ℤ true amounts (a ∷ agents) = ap (◌∷◌ (a, pos 0)) (payoffs-as_ℤ true amounts agents)
payoffs-as_ℤ false amounts (a ∷ agents) =
    rw (lookup-as_ℤ a amounts)
      (ap (◌∷◌ (a, pos (claim_of a amounts))) (payoffs-as_ℤ false amounts agents))

sum-paid :
    (amounts : Dict ℕ) (agents : List String)
    → sum (values (paid_amounts false amounts agents)) ≡ sum (map (λ a. claim_of a amounts) agents)
sum-paid amounts [] = refl
sum-paid amounts (a ∷ agents) = omega (arith, sum-paid amounts agents)

sum-unpaid :
    (amounts : Dict ℕ) (agents : List String) → sum (values (paid_amounts true amounts agents)) ≡ 0
sum-unpaid amounts [] = refl
sum-unpaid amounts (a ∷ agents) = omega (arith, sum-unpaid amounts agents)

paid_amounts-le :
    (amounts : Dict ℕ) (agents : List String)
    → AreDistinct agents
    → sum (values (paid_amounts (not (leb (sum (values amounts) + 0) (pot + 0))) amounts agents))
      ≤ pot
paid_amounts-le amounts agents d = elim (Bool-cases (leb (sum (values amounts) + 0) (pot + 0))) [
  | inl e ↦
      rw e (omega (arith, sum_claims-le amounts agents d, leb→le _ _ e, sum-paid amounts agents))
  | inr e ↦ rw e (omega (arith, sum-unpaid amounts agents))
]

-- No payoff is negative.
abbrev pub AreNotNegative : Dict ℤ → Type 0
AreNotNegative = All (λ kv. leb_ℤ (pos 0) kv.1 ≡ true)

as_ℤ-AreNotNegative : (amounts : Dict ℕ) → AreNotNegative (as_ℤ amounts)
as_ℤ-AreNotNegative [] = tt
as_ℤ-AreNotNegative ((k, n) ∷ rest) = (ground arith, as_ℤ-AreNotNegative rest)

split-pays :
    (amounts : Dict ℕ) (state : WorldSnapshotView)
    → AreDistinct state.agent_ids
    → (leb_ℤ (total (values (split (as_ℤ amounts) state).per_agent_payoff)) (pos pot) ≡ true)
      × AreNotNegative (split (as_ℤ amounts) state).per_agent_payoff
      × (leb_ℤ (split (as_ℤ amounts) state).reward (pos 1000000) ≡ true)
unfolding split
split-pays amounts state d =
    let over = not (leb (sum (values amounts) + 0) (pot + 0)) in
    let few = paid_amounts-le amounts state.agent_ids d in
    rw
      (
        total-as_ℤ amounts,
        payoffs-as_ℤ over amounts state.agent_ids,
        total-as_ℤ (paid_amounts over amounts state.agent_ids),
      )
      (le→leb _ _ (omega (arith, few)), as_ℤ-AreNotNegative _, le→leb _ _ (omega (arith, few)))

-- The verifier of the mixed-motive task returns a result where every claim is an amount that is not
-- negative and the agents are distinct; no payoff is then negative, all payoffs together are at
-- most the pot, and the reward is at most 1.
pub verify_split-pays :
    (py : Python) (state : WorldSnapshotView) (events : List Event)
    → AreClaims (claims_in state)
    → AreDistinct state.agent_ids
    → (r : VerifierResult) × (verify_split py state events ≡ some r)
      × (leb_ℤ (total (values r.per_agent_payoff)) (pos pot) ≡ true)
      × AreNotNegative r.per_agent_payoff
      × (leb_ℤ r.reward (pos 1000000) ≡ true)
unfolding verify_split
verify_split-pays py state events h d =
    let (amounts, numbers) = claimed_of_AreClaims py (claims_in state) h in
    let (few, kept, share) = split-pays amounts state d in
    (split (as_ℤ amounts) state, rw (verify_split, numbers) refl, few, kept, share)

entries-fields : (m : Dict Json) → entries (fields m) ≡ m
entries-fields [] = refl
entries-fields ((k, v) ∷ m) = ap (◌∷◌ (k, v)) (entries-fields m)

lookup-insert_self : (k : String) (v : Json) (m : Dict Json) → lookup k (insert k v m) ≡ some v
unfolding lookup insert
lookup-insert_self k v [] = rw (eq_refl k) refl
lookup-insert_self k v ((name, old) ∷ m) = elim (Bool-cases (str_eq name k)) [
  | inl e ↦ rw (e, lookup, e) refl
  | inr e ↦ rw (e, lookup, e) (lookup-insert_self k v m)
]

insert-AreClaims :
    (a : String) (n : ℕ) (m : Dict Json) → AreClaims m → AreClaims (insert a (real (pos n)) m)
unfolding insert
insert-AreClaims a n [] h = ((n, refl), tt)
insert-AreClaims a n ((k, v) ∷ m) h = elim (Bool-cases (str_eq k a)) [
  | inl e ↦ rw (e, insert) ((n, refl), h.1)
  | inr e ↦ rw (e, insert) (h.0, insert-AreClaims a n m h.1)
]

-- The World's state once a handler's updates are in it.
abbrev pub after : StateChange → WorldSnapshotView → WorldSnapshotView
after change state = record state { state = update state.state change.updates }

-- The amount of a claim, where `float` reads one, is a number.
abbrev pub is_finite : Option Float → Bool
is_finite (some (special x)) = false
is_finite _ = true

apply_amount-AreClaims :
    (amount : Option Float) (action : WorldAction) (state : WorldSnapshotView)
    → is_finite amount ≡ true
    → AreClaims (claims_in state)
    → AreClaims (claims_in (after (apply_amount amount action state) state))
unfolding update
apply_amount-AreClaims none action state f h = h
apply_amount-AreClaims (some (special x)) action state f h = absurd (ground (arith, f))
apply_amount-AreClaims (some (finite (negsuc n))) action state f h = h
apply_amount-AreClaims (some (finite (pos n))) action state f h =
    elim (Bool-cases (contains (keys (claims_in state)) action.actor_id)) [
      | inl e ↦ rw e h
      | inr e ↦
          rw
            (
              e,
              lookup-insert_self "claims"
                  (object (insert action.actor_id (real (pos n)) (claims_in state))) state.state,
              entries-fields (insert action.actor_id (real (pos n)) (claims_in state)),
            )
            (insert-AreClaims action.actor_id n (claims_in state) h)
    ]

-- The handler of `claim` keeps what the verifier relies on: where every claim in the state is an
-- amount that is not negative, and the amount of the action is not read as one of the floats that
-- are no numbers, every claim is such an amount once the handler's change has been applied, whether
-- it records the new claim or rejects it.
pub apply_claim-AreClaims :
    (py : Python) (action : WorldAction) (state : WorldSnapshotView)
    → is_finite (float_of py (get_or (lookup "amount" action.args) (num 0))) ≡ true
    → AreClaims (claims_in state)
    → AreClaims (claims_in (after (apply_claim py action state) state))
unfolding apply_claim
apply_claim-AreClaims py action state f h = apply_amount-AreClaims _ action state f h
