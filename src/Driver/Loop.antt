-- ===== src/Driver/Loop.antt =====
-- A driver's loop ends when its rounds move the clock on.
use multi_agent_testbed.Base.{
  ℕ, zero, suc, ◌+◌, ◌≤◌, ◌<◌, ◌≡◌, ◌≢◌, refl, ap, Option, none, some, leb, Bool-cases, inl, inr,
  Outcome, returned, raised, pure, modify, gets, ◌>>=◌, ◌>>◌, and_then, Keeps, Keeps-pure,
  Keeps-bind, Gives, Gives-bind, arith,
}
use multi_agent_testbed.Rng.{Platform}
use multi_agent_testbed.World.State.{World, commit, advance_to, clock_draft}
use multi_agent_testbed.Driver.State.{
  Run, end_turn, repeat, or_again, Driver, RunError, Setup, DriverOutcome, on_world,
}
use multi_agent_testbed.Driver.Session.{round}

commit_reaches :
    (p : Platform) (time : ℕ) (d : World → _)
    → Keeps (λ (w : World). time ≤ w.logical_time) (commit p d)
unfolding commit
commit_reaches p time d = record { at = λ w h. h }

-- After `advance_to` the clock has reached the time it was given.
pub advance_to_reaches :
    (p : Platform) (time : ℕ) (w : World) → time ≤ (advance_to p time w).1.logical_time
unfolding advance_to
advance_to_reaches p time w = elim (Bool-cases (leb time w.logical_time)) [
  | inl e ↦ rw e (ground arith)
  | inr e ↦ rw e (
      (Keeps-bind _ _ (commit_reaches p time clock_draft) λ _. Keeps-pure tt).at
        (record w { logical_time = time }) (omega arith))
]

-- The loop goes on only with a later clock.
abbrev pub GoesOn : ℕ → Option DriverOutcome → Driver → Type 0
GoesOn time none d = time < d.world.logical_time
GoesOn time (some outcome) d = Unit

pure-none-GoesOn :
    (time : ℕ) (d : Driver)
    → time < d.world.logical_time
    → Gives (pure {S = Driver} {E = RunError} none d) (GoesOn time)
unfolding pure
pure-none-GoesOn time d h = h

pub advanced_to :
    (s : Setup) (time later : ℕ) (d : Driver)
    → time < later
    → Gives ((on_world (advance_to s.platform later) >> pure none) d) (GoesOn time)
unfolding on_world
advanced_to s time later d h =
    Gives-bind (on_world (advance_to s.platform later)) (λ _. pure none) d (GoesOn time)
      λ _. pure-none-GoesOn time _ (omega (arith, h, advance_to_reaches s.platform later d.world))

pub end_turn-GoesOn :
    (s : Setup) (time : ℕ) (d : Driver)
    → time ≤ d.world.logical_time
    → 0 < d.world.manifest.world.clock_step
    → Gives (end_turn s d) (GoesOn time)
unfolding end_turn modify gets ◌>>=◌
end_turn-GoesOn s time d h step =
    advanced_to s time (d.world.logical_time + d.world.manifest.world.clock_step)
      (record d { state = record d.state { turn = d.state.turn + 1 } }) (omega (arith, h, step))

pub Gives-ne :
    (r : Outcome RunError (Option DriverOutcome)) (d : Driver)
    → Gives (r, d) (λ o _. o ≢ none)
    → r ≢ returned none
Gives-ne (returned o) d h p = h (ap returned_or p)
  where
    returned_or : Outcome RunError (Option DriverOutcome) → Option DriverOutcome
    returned_or (returned o) = o
    returned_or (raised e) = none
Gives-ne (raised e) d h p = cc

again :
    (rest : Run (Option DriverOutcome)) (d e : Driver) (o : Outcome RunError (Option DriverOutcome))
    → Gives (o, e) (GoesOn d.world.logical_time)
    → ((d.world.logical_time < e.world.logical_time)
        → o ≡ returned none
        → (rest e).0 ≢ returned none)
    → (and_then o (or_again rest) e).0 ≢ returned none
unfolding or_again pure
again rest d e (raised x) g h = λ p. cc
again rest d e (returned (some outcome)) g h = λ p. cc
again rest d e (returned none) g h = h g refl

-- A loop whose rounds keep `Good`, go on only with a later clock and never past `limit` does not
-- run out of fuel.
pub repeat_enough :
    (round : Run (Option DriverOutcome)) (Good : Driver → Type 0) (limit : ℕ)
    → Keeps Good round
    → ((d : Driver) → Good d → Gives (round d) (GoesOn d.world.logical_time))
    → ((d : Driver) → Good d → (round d).0 ≡ returned none → d.world.logical_time ≤ limit)
    → (fuel : ℕ) (d : Driver) → Good d
    → limit + 2 ≤ fuel + d.world.logical_time
    → 0 < fuel
    → (repeat fuel round d).0 ≢ returned none
unfolding repeat ◌>>=◌
repeat_enough round Good limit kept on in_time zero d good enough some_fuel =
    absurd (omega (arith, some_fuel))
repeat_enough round Good limit kept on in_time (suc fuel) d good enough some_fuel =
    again (repeat fuel round) d (round d).1 (round d).0 (on d good) λ later goes_on.
      let at_time = in_time d good goes_on in
      repeat_enough round Good limit kept on in_time fuel (round d).1 (kept.at d good)
        (omega (arith, later, enough)) (omega (arith, enough, at_time))
