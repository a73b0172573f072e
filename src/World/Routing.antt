-- ===== src/World/Routing.antt =====
-- Whom `route` lets a message through to.
use multi_agent_testbed.Base.{
  ◌≤◌, String, ◌≡◌, true, false, not, ◌&&◌, List, [], ◌∷◌, All, All-filter_of, keys, contains,
  length, ltb, pure, gets, ◌>>=◌, Gives, Gives-bind, Gives-if, arith,
}
use multi_agent_testbed.Sdk.{Proposal}
use multi_agent_testbed.Rng.{Platform}
use multi_agent_testbed.World.State.{World, policy_event}
use multi_agent_testbed.World.Actions.{Topology, route, known_recipients, first}

-- An agent of the run that has not dropped out.
abbrev pub IsReachable : World → String → Type 0
IsReachable w r = (contains (keys w.roles) r ≡ true) × (contains w.dropped_agents r ≡ false)

-- What the World may let through.
abbrev pub IsAllowed : World → List String → Type 0
IsAllowed w recipients =
    All (IsReachable w) recipients
    × (w.manifest.world.communication.broadcast_allowed ≡ false → length recipients ≤ 1)

known_recipients-IsReachable :
    (w : World) (recipients : List String) → All (IsReachable w) (known_recipients w recipients)
unfolding known_recipients
known_recipients-IsReachable w recipients =
    All-filter_of (IsReachable w)
      (λ r. contains (keys w.roles) r && not (contains w.dropped_agents r)) (λ r e. ground arith)
      recipients

first-IsAllowed : (w : World) (rs : List String) → All (IsReachable w) rs → IsAllowed w (first rs)
first-IsAllowed w [] h = (tt, λ _. omega arith)
first-IsAllowed w (r ∷ rs) h = ((h.0, tt), λ _. omega arith)

-- Whatever a topology proposes, each recipient that `route` returns is an agent of the run that
-- has not dropped out, and there is at most one of them where broadcasts are not allowed.
pub route-IsAllowed :
    (p : Platform) (t : Topology) (q : Proposal) (w : World)
    → Gives (route p t q w) (λ decision _. IsAllowed w decision.recipients)
unfolding route gets pure ◌>>=◌
route-IsAllowed p t q w =
    let reachable = known_recipients-IsReachable w (t.propose q w).recipients in
    Gives-if
      (not w.manifest.world.communication.broadcast_allowed
        && ltb 1 (length (known_recipients w (t.propose q w).recipients)))
      _ _ w (λ decision _. IsAllowed w decision.recipients)
      (λ _.
        Gives-bind (policy_event p "broadcast_not_allowed" false _) _ w _
          λ _. first-IsAllowed w (known_recipients w (t.propose q w).recipients) reachable)
      (λ e. (reachable, λ b. ground arith))
