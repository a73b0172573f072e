-- ===== src/Rng/Streams.antt =====
-- Each label has a stream of its own, and a restored generator goes on where the saved one stood.
use multi_agent_testbed.Base.{ℕ, ◌+◌, ◌≡◌, refl, ap, true, false, List, [], ◌∷◌, eq_iff, arith}
use multi_agent_testbed.Records.{Label, fault_label, plugin_label}
use multi_agent_testbed.Rng.{
  Platform, Rng, same_label, counter, set_counter, next, random, state, restore,
}

same_label_trans :
    (a b c : Label) → same_label a b ≡ true → same_label a c ≡ true → same_label b c ≡ true
same_label_trans (fault_label a) (fault_label b) (fault_label c) h k = ground arith
same_label_trans (plugin_label a) (plugin_label b) (plugin_label c) h k =
    ground (arith, eq_iff a b, eq_iff a c, eq_iff b c)
same_label_trans (fault_label a) (fault_label b) (plugin_label c) h k = cc
same_label_trans (fault_label a) (plugin_label b) c h k = cc
same_label_trans (plugin_label a) (fault_label b) c h k = cc
same_label_trans (plugin_label a) (plugin_label b) (fault_label c) h k = cc

counter-set_counter_ne :
    (l m : Label) (n : ℕ) (cs : List (Label × ℕ))
    → same_label m l ≡ false
    → counter l (set_counter m n cs) ≡ counter l cs
unfolding counter set_counter
counter-set_counter_ne l m n [] h = rw h
counter-set_counter_ne l m n ((k, v) ∷ cs) h =
    ground (arith, counter-set_counter_ne l m n cs h, same_label_trans k m l)

-- A draw under one label does not shift the stream of another: the next draw of `l` is the same
-- whether or not `m` was drawn before it.
pub random_independent :
    (p : Platform) (l m : Label) (r : Rng)
    → same_label m l ≡ false
    → (random p l (random p m r).1).0 ≡ (random p l r).0
unfolding random next
random_independent p l m r h =
    rw (counter-set_counter_ne l m (counter m r.counters + 1) r.counters h)

-- The draws under a sequence of labels.
unfoldable pub draws : Platform → List Label → Rng → List ℕ
unfolding random
draws p [] r = []
draws p (l ∷ ls) r = (random p l r).0 ∷ draws p ls (random p l r).1

draws_of_state :
    (p : Platform) (ls : List Label) (r q : Rng) → state r ≡ state q → draws p ls r ≡ draws p ls q
unfolding draws random next state restore
draws_of_state p [] r q h = refl
draws_of_state p (l ∷ ls) r q h =
    let now : (random p l r).0 ≡ (random p l q).0 = ap (λ t. (random p l (restore t)).0) h in
    let later =
      draws_of_state p ls (random p l r).1 (random p l q).1
        (ap (λ t. state (random p l (restore t)).1) h) in
    λ i. now i ∷ later i

-- A generator restored from a saved state makes every draw that the saved one would have made.
draws-restore :
    (p : Platform) (ls : List Label) (r : Rng) → draws p ls (restore (state r)) ≡ draws p ls r
unfolding state restore
draws-restore p ls r = draws_of_state p ls (restore (state r)) r refl
