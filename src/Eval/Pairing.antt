-- ===== src/Eval/Pairing.antt =====
-- What a comparison counts, and which runs may enter it.
use multi_agent_testbed.Base.{◌+◌, ◌≡◌, Bool, true, false, ◌&&◌, [], ◌∷◌, ◌+ℤ◌, length, eq_refl}
use multi_agent_testbed.Contracts.Enums.{is_evaluable}
use multi_agent_testbed.Eval.Compare.{
  StoredResult, comparable, PairingKey, same_pairing, Values, has_key, negated, PairedComparison,
}

-- The run may enter a comparison, and its outcome is one that can be evaluated.
abbrev pub counts : StoredResult → Bool
counts r = comparable r.run && is_evaluable r.state

same_pairing_refl : (a : PairingKey) → same_pairing a a ≡ true
same_pairing_refl a = eq_refl a

-- No key stands twice.
abbrev AreDistinctKeys : Values → Type 0
AreDistinctKeys [] = Unit
AreDistinctKeys (e ∷ d) = (has_key d e ≡ false) × AreDistinctKeys d

-- Each key of an arm is paired or counted as unpaired, and the difference of the sums is the sum of
-- the differences.
abbrev pub IsShared : Values → Values → PairedComparison → Type 0
IsShared a b s =
    (s.n_pairs + s.unpaired_a ≡ length a)
    × (s.n_pairs + s.unpaired_b ≡ length b)
    × (s.total_difference ≡ s.total_a +ℤ negated s.total_b)
