-- ===== src/Suite/Concurrent/Liveness/Finish.antt =====
-- Sweeps over the goroutines end a step of the run.
use package_index.Base.{
  ℕ, ◌≤◌, none, List, [], ◌∷◌, ◌≡◌, refl, subst, All, All-weaken, length, bytes_eq, arith,
}
use package_index.Index.Graph.{Graph}
use package_index.Suite.Packages.{Package}
use package_index.Suite.Segments.{flatten}
use package_index.Suite.Run.Removal.{IsRemovable}
use package_index.Suite.Run.OneClient.Grows.{flipped}
use package_index.Suite.Phases.{Task, removes, indexes, verifies, Segments}
use package_index.Suite.Concurrent.{Worker, Fleet, here}
use package_index.Suite.Concurrent.Messages.{IsCarried}
use package_index.Suite.Concurrent.Liveness.Solo.{Setting, IsHandled}
use package_index.Suite.Concurrent.Liveness.Round.{IsLow}
use package_index.Suite.Concurrent.Liveness.Invariants.{w-IsHandled}
use package_index.Suite.Concurrent.Liveness.Later.{
  FleetSteps-trans, IsLater, same-IsLater, IsLater-trans, Goes,
}
use package_index.Suite.Concurrent.Liveness.Sweep.{w-Turn, end-Gone}
use package_index.Suite.Concurrent.Liveness.Sweeps.{IsHere, IsDone, IsDone-later, sweeps}

module _ {κ} {R : Type κ} (given : Setting R) where
  -- All packages that can be indexed rank low for the last sweep.
  handled-IsLow :
      (t : Task) (s : List Package) → All (IsHandled given) s → All (IsLow given t given.bound) s
  handled-IsLow removes s h = All-weaken _ _ s (λ p q. omega (arith, q.2)) h
  handled-IsLow indexes s h = All-weaken _ _ s (λ p q. omega (arith, q.2)) h
  handled-IsLow (verifies c) s h = All-weaken _ _ s (λ p q. omega (arith, q.2)) h

module _ {κ} {R : Type κ} (given : Setting R) (level : ℕ) (segments : Segments)
    (few : length segments ≤ level) (whole : flatten segments ≡ given.all)
    (carried : All (All (IsCarried given.all)) segments)
    (handled : All (All (IsHandled given)) segments) (g0 : Graph) (r0 : R)
    (v : IsRemovable given.all (flipped given.bound given.rank) g0) where
  -- A step whose goroutines have all ended.
  pub record Finished (f : Fleet Graph R) : Type κ where
    pub f' : Fleet Graph R
    pub steps : Goes given level segments f f'
    pub later : IsLater f f'
    pub no_workers : f'.workers ≡ []

  end_all :
      (ws : List Worker) (f : Fleet Graph R)
      → IsHere given level segments few whole carried handled g0 r0 v f
      → f.run.exit ≡ none
      → f.run.pending ≡ []
      → f.workers ≡ ws
      → IsDone given level segments few whole carried handled g0 r0 v given.bound f
      → Finished f
  end_all [] f at alive p e low = record {
    f' = f;
    steps = here;
    later = same-IsLater f alive p;
    no_workers = e;
  }
  end_all (w ∷ ws) f at alive p e low =
      let turn =
        w-Turn given level segments few whole carried handled g0 r0 v f [] w ws given.bound at alive
          e low in
      let its =
        (w-IsHandled given level segments few whole carried handled g0 r0 v f [] w ws at alive
          e).0 in
      let gone =
        end-Gone given level segments few whole carried handled g0 r0 v f [] w ws given.bound at
          alive p e turn (turn.last (handled-IsLow given f.task w.segment its)) in
      let more =
        end_all ws gone.f' (FleetSteps-trans at gone.steps) gone.later.alive gone.later.no_pending
          gone.workers
          (IsDone-later given level segments few whole carried handled g0 r0 v given.bound f gone.f'
            gone.later low) in
      record {
        f' = more.f';
        steps = FleetSteps-trans gone.steps more.steps;
        later = IsLater-trans f gone.f' more.f' gone.later more.later;
        no_workers = more.no_workers;
      }

  -- A step whose goroutines have all been started comes to its end.
  pub step-Finished :
      (f : Fleet Graph R)
      → IsHere given level segments few whole carried handled g0 r0 v f
      → f.run.exit ≡ none
      → f.run.pending ≡ []
      → Finished f
  step-Finished f at alive p =
      let raised =
        sweeps given level segments few whole carried handled g0 r0 v given.bound 0 f at alive p
          (λ x c l. absurd (omega (arith, l))) in
      let more =
        end_all raised.f'.workers raised.f' (FleetSteps-trans at raised.steps) raised.later.alive
          raised.later.no_pending refl
          (subst (λ m. IsDone given level segments few whole carried handled g0 r0 v m raised.f')
            (omega arith) raised.low) in
      record {
        f' = more.f';
        steps = FleetSteps-trans raised.steps more.steps;
        later = IsLater-trans f raised.f' more.f' raised.later more.later;
        no_workers = more.no_workers;
      }
