-- ===== src/Driver/Steps.antt =====
-- What the steps that both drivers share keep of the history.
use multi_agent_testbed.Base.{
  ℕ, zero, suc, ◌≡◌, refl, Option, none, some, Outcome, modify, Keeps, Keeps-pure, Keeps-gets,
  Keeps-bind, Keeps-if,
}
use multi_agent_testbed.Records.{DriverState}
use multi_agent_testbed.World.State.{World, Act}
use multi_agent_testbed.World.History.{Follows, advance_to-Follows}
use multi_agent_testbed.Driver.State.{
  end_turn, repeat, or_again, Driver, Run, RunError, Setup, on_world, call_hook, checkpoint_due,
  maybe_checkpoint, unless_finished, count_event, DriverOutcome,
}

-- The controller's hook keeps the history too.
abbrev pub HookFollows :
    World → Option (DriverState → World → Outcome RunError Unit × World) → Type 0
HookFollows v none = Unit
HookFollows v (some hook) = (s : DriverState) (w : World) → Follows v w → Follows v (hook s w).1

module _ (v : World) where
  abbrev pub At : Driver → Type 0
  At d = Follows v d.world

  pub on_world-At : {A : Type 0} (m : Act A) → Keeps (Follows v) m → Keeps At (on_world m)
  unfolding on_world
  on_world-At m k = record { at = λ d f. k.at d.world f }

  -- A step that leaves all that `Follows` looks at alone.
  pub step-At :
      (f : Driver → Driver)
      → ((d : Driver)
          → ((f d).world.journal ≡ d.world.journal)
            × ((f d).world.roles ≡ d.world.roles)
            × ((f d).world.manifest ≡ d.world.manifest)
            × ((f d).world.logical_time ≡ d.world.logical_time)
            × ((f d).world.finished ≡ d.world.finished))
      → Keeps {E = RunError} At (modify f)
  unfolding modify
  step-At f same = record {
    at = λ d k.
        let (journal, roles, manifest, time, finished) = same d in
        record {
          added = k.added;
          log = rw journal k.log;
          time = rw time k.time;
          run = rw journal k.run;
          roles = rw roles k.roles;
          manifest = rw manifest k.manifest;
          finished = rw finished k.finished;
          fresh = rw journal k.fresh;
        };
  }

  call_hook-At :
      (h : DriverState → World → Outcome RunError Unit × World)
      → HookFollows v (some h)
      → Keeps At (call_hook h)
  unfolding call_hook
  call_hook-At h k = record { at = λ d f. k d.state d.world f }

  checkpoint_due-At :
      (s : Setup) (o : Option (DriverState → World → Outcome RunError Unit × World))
      → HookFollows v o
      → Keeps At (checkpoint_due s o)
  unfolding checkpoint_due
  checkpoint_due-At s none k = Keeps-pure tt
  checkpoint_due-At s (some h) k = Keeps-bind _ _ (Keeps-gets _) λ count.
      Keeps-if _ _ _
        (Keeps-bind _ _ (step-At _ λ d. (refl, refl, refl, refl, refl)) λ _. call_hook-At h k)
        (Keeps-pure tt)

  pub maybe_checkpoint-At :
      (s : Setup) → HookFollows v s.checkpoint_hook → Keeps At (maybe_checkpoint s)
  unfolding maybe_checkpoint
  maybe_checkpoint-At s hook =
      Keeps-bind _ _ (step-At count_event λ d. (refl, refl, refl, refl, refl))
        λ _. checkpoint_due-At s s.checkpoint_hook hook

  pub unless_finished-At : (rest : Run Unit) → Keeps At rest → Keeps At (unless_finished rest)
  unfolding unless_finished
  unless_finished-At rest k =
      Keeps-bind _ _ (Keeps-gets _) λ finished. Keeps-if _ _ _ (Keeps-pure tt) k

  pub end_turn-At : (s : Setup) → Keeps At (end_turn s)
  unfolding end_turn
  end_turn-At s = Keeps-bind _ _ (step-At _ λ d. (refl, refl, refl, refl, refl)) λ _.
      Keeps-bind _ _ (Keeps-gets _)
        λ w. Keeps-bind _ _ (on_world-At _ (advance_to-Follows v s.platform _)) λ _. Keeps-pure _

  or_again-At :
      (again : Run (Option DriverOutcome))
      → Keeps At again
      → (o : Option DriverOutcome) → Keeps At (or_again again o)
  unfolding or_again
  or_again-At again k none = k
  or_again-At again k (some outcome) = Keeps-pure _

  pub repeat-At :
      (fuel : ℕ) (round : Run (Option DriverOutcome))
      → Keeps At round
      → Keeps At (repeat fuel round)
  unfolding repeat
  repeat-At zero round k = Keeps-pure none
  repeat-At (suc fuel) round k = Keeps-bind _ _ k (or_again-At _ (repeat-At fuel round k))
