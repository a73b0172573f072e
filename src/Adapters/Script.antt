-- ===== src/Adapters/Script.antt =====
-- A scripted agent goes through its script once, and a restored one goes on where it stood.
use multi_agent_testbed.Base.{
  ℕ, zero, suc, ◌+◌, ◌≤◌, ◌<◌, ◌≡◌, refl, ap, ◌∙◌, none, some, List, [], ◌∷◌, length, min, max, ◌⊎◌,
  inl, inr, arith, lookup,
}
use multi_agent_testbed.Sdk.{AgentRequest}
use multi_agent_testbed.Packs.Python.{Python}
use multi_agent_testbed.Adapters.Scripted.{
  Step, ScriptedAgent, turn_at, invoke, invoke_all, snapshot, restore,
}

-- The agent with its cursor elsewhere.
abbrev moved_to : ScriptedAgent → ℕ → ScriptedAgent
moved_to agent n = record agent { cursor = n }

turn_at-cases :
    (n : ℕ) (turns : List (List Step))
    → ((turn_at n turns ≡ none) × (length turns ≤ n))
      ⊎ ((turn : List Step) × (turn_at n turns ≡ some turn) × (n < length turns))
unfolding turn_at
turn_at-cases n [] = inl (refl, omega arith)
turn_at-cases zero (turn ∷ turns) = inr (turn, refl, omega arith)
turn_at-cases (suc n) (turn ∷ turns) = elim (turn_at-cases n turns) [
  | inl (e, few) ↦ inl (e, omega (arith, few))
  | inr (found, e, more) ↦ inr (found, e, omega (arith, more))
]

-- Where the cursor stands after `k` more invocations.
abbrev pub advanced : ℕ → ℕ → ℕ → ℕ
advanced m n k = max n (min m (n + k))

least_of : (n m : ℕ) → m ≤ n → n ≡ advanced m n 1
least_of n m h = omega (arith, h)

next_of : (n m : ℕ) → n < m → suc n ≡ advanced m n 1
next_of n m h = omega (arith, h)

start_of : (n m : ℕ) → n ≡ advanced m n 0
start_of n m = omega arith

advanced_again : (m n k : ℕ) → advanced m (advanced m n 1) k ≡ advanced m n (suc k)
advanced_again m n k = omega arith

-- One invocation changes the cursor only, by one until the script is used up.
invoke-moved_to :
    (py : Python) (agent : ScriptedAgent) (request : AgentRequest)
    → (invoke py agent request).1 ≡ moved_to agent (advanced (length agent.steps) agent.cursor 1)
unfolding invoke
invoke-moved_to py agent request = elim (turn_at-cases agent.cursor agent.steps) [
  | inl (e, few) ↦
      rw (invoke, e) (ap (moved_to agent) (least_of agent.cursor (length agent.steps) few))
  | inr (turn, e, more) ↦
      rw (invoke, e) (ap (moved_to agent) (next_of agent.cursor (length agent.steps) more))
]

invoke_all-moved_to :
    (py : Python) (agent : ScriptedAgent) (requests : List AgentRequest)
    → (invoke_all py agent requests).1
      ≡ moved_to agent (advanced (length agent.steps) agent.cursor (length requests))
unfolding invoke_all
invoke_all-moved_to py agent [] = ap (moved_to agent) (start_of agent.cursor (length agent.steps))
invoke_all-moved_to py agent (request ∷ requests) =
    ap (λ a. (invoke_all py a requests).1) (invoke-moved_to py agent request)
    ∙ invoke_all-moved_to py (moved_to agent (advanced (length agent.steps) agent.cursor 1))
        requests
    ∙ ap (moved_to agent) (advanced_again (length agent.steps) agent.cursor (length requests))

-- A script is gone through once: after any number of invocations the cursor has moved on by that
-- number, but not past the end of the script; a cursor that is past the end stays where it is. An
-- agent of the same script that is restored from what the agent then saves is that agent again.
pub restore-invoke_all :
    (py : Python) (agent : ScriptedAgent) (requests : List AgentRequest)
    → ((invoke_all py agent requests).1.cursor
        ≡ max agent.cursor (min (length agent.steps) (agent.cursor + length requests)))
      × (restore (snapshot (invoke_all py agent requests).1) agent
          ≡ some (invoke_all py agent requests).1)
unfolding restore snapshot lookup
restore-invoke_all py agent requests =
    let moved = invoke_all-moved_to py agent requests in (ap (λ a. a.cursor) moved, rw moved refl)
