-- ===== src/Driver/Simultaneous.antt =====
-- In the mode `parallel` the order in which the agents were asked does not matter.
use mathlib.Core.List.{Mem, Perm}
use multi_agent_testbed.Base.{
  ◌≡◌, ap, true, false, some, List, IsPreorder, sort_by_of_perm, str_le_total, str_le_trans,
  str_le_antisymm, eq_iff, arith,
}
use multi_agent_testbed.Contracts.Enums.{parallel}
use multi_agent_testbed.Sdk.{WorldAction}
use multi_agent_testbed.Driver.State.{Setup}
use multi_agent_testbed.Driver.Env.{action_le, commit_all, settle_tick}

action_le_total : (a b : WorldAction) → action_le a b ≡ false → action_le b a ≡ true
unfolding action_le
action_le_total a b h = ground (
  arith,
  eq_iff a.kind b.kind,
  eq_iff b.kind a.kind,
  str_le_total a.kind b.kind,
  str_le_total a.actor_id b.actor_id,
)

action_le_trans :
    (a b c : WorldAction) → action_le a b ≡ true → action_le b c ≡ true → action_le a c ≡ true
unfolding action_le
action_le_trans a b c h k = ground (
  arith,
  eq_iff a.kind b.kind,
  eq_iff b.kind c.kind,
  eq_iff a.kind c.kind,
  str_le_trans a.kind b.kind c.kind,
  str_le_trans a.actor_id b.actor_id c.actor_id,
  str_le_antisymm a.kind b.kind,
)

action_le-IsPreorder : IsPreorder action_le
action_le-IsPreorder = record { total = action_le_total; trans = action_le_trans }

-- No two different actions of the list are of one agent and one kind.
abbrev pub AreApart : List WorldAction → Type 0
AreApart xs =
    (x y : WorldAction) → Mem x xs → Mem y xs → x.kind ≡ y.kind → x.actor_id ≡ y.actor_id → x ≡ y

same_kind_and_actor :
    (x y : WorldAction)
    → action_le x y ≡ true
    → action_le y x ≡ true
    → (x.kind ≡ y.kind) × (x.actor_id ≡ y.actor_id)
unfolding action_le
same_kind_and_actor x y h k = ground (
  arith,
  eq_iff x.kind y.kind,
  eq_iff y.kind x.kind,
  str_le_antisymm x.kind y.kind,
  str_le_antisymm x.actor_id y.actor_id,
)

-- The World commits the actions of a parallel tick, with all that follows from them, in the same
-- way whatever order they were collected in, provided that no two different ones are of one agent
-- and one kind.
pub settle_tick_of_perm :
    (s : Setup) (xs ys : List WorldAction)
    → AreApart xs
    → Perm xs ys
    → settle_tick s parallel (some xs) ≡ settle_tick s parallel (some ys)
unfolding settle_tick
settle_tick_of_perm s xs ys apart p = ap (commit_all s) (
    sort_by_of_perm action_le action_le-IsPreorder xs ys
      (λ x y mx my h k.
        let (kind, actor) = same_kind_and_actor x y h k in apart x y mx my kind actor)
      p)
