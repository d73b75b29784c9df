-- ===== src/Suite/Concurrent/Liveness/Ending.antt =====
-- From each state the run with its goroutines can go on to its end.
use package_index.Base.{
  ℕ, ◌<◌, ◌≤◌, min, some, none, List, [], ◌∷◌, ◌≡◌, refl, ap, sym, ◌∙◌, subst, All, All-weaken,
  length, Name, bytes_eq, arith,
}
use package_index.Base.Int64.{int64_bound}
use package_index.Index.Graph.{Graph}
use package_index.Suite.Packages.{AllPackages}
use package_index.Suite.Packages.Registry.{Within}
use package_index.Suite.Segments.{flatten, segment_list_packages}
use package_index.Suite.WireFormat.Answers.{IsNamed}
use package_index.Suite.Run.Passed.{IsReady, AllRanked}
use package_index.Suite.Run.Removal.{IsRemovable, members}
use package_index.Suite.Run.OneClient.Grows.{flipped}
use package_index.Suite.Run.OneClient.Passes.{All-both}
use package_index.Suite.Run.Verify.{answer}
use package_index.Suite.Phases.{Task, Segments, begin}
use package_index.Suite.Concurrent.{
  Worker, Fleet, begin_fleet, FleetSteps, starts, goes_on, returns, here, next, start_worker,
}
use package_index.Suite.Concurrent.Messages.{IsCarried}
use package_index.Suite.Concurrent.Passes.{HasPassed, counter-workers, returns-HasPassed}
use package_index.Suite.Concurrent.Whole.{All-flatten, part}
use package_index.Suite.Concurrent.Liveness.Solo.{Setting, named, IsHandled}
use package_index.Suite.Concurrent.Liveness.Invariants.{alive-IsSound}
use package_index.Suite.Concurrent.Liveness.Later.{FleetSteps-trans, Goes}
use package_index.Suite.Concurrent.Liveness.Sweep.{IsAt}
use package_index.Suite.Concurrent.Liveness.Finish.{step-Finished}

module _ {κ} {R : Type κ} (given : Setting R) (level : ℕ) (segments : Segments) where
  -- The step with all its goroutines started.
  record Started (f : Fleet Graph R) : Type κ where
    f' : Fleet Graph R
    steps : Goes given level segments f f'
    alive : f'.run.exit ≡ none
    no_pending : f'.run.pending ≡ []
    same_todo : f'.run.todo ≡ f.run.todo

  start_all :
      (pending : Segments) (f : Fleet Graph R)
      → f.run.exit ≡ none
      → f.run.pending ≡ pending
      → Started f
  start_all [] f alive p = record {
    f' = f;
    steps = here;
    alive = alive;
    no_pending = p;
    same_todo = refl;
  }
  start_all (s ∷ rest) f alive p =
      let more =
        start_all rest
          (record f {
            run = record f.run { pending = rest; running = s ∷ f.run.running };
            workers = start_worker f.task s ∷ f.workers;
          })
          alive refl in
      record {
        f' = more.f';
        steps = FleetSteps-trans (next here (starts f s rest alive p)) more.steps;
        alive = more.alive;
        no_pending = more.no_pending;
        same_todo = more.same_todo;
      }

  module _ (same : length segments ≡ level) (few : length segments ≤ level)
      (whole : flatten segments ≡ given.all) (carried : All (All (IsCarried given.all)) segments)
      (handled : All (All (IsHandled given)) segments) (g0 : Graph) (r0 : R)
      (v : IsRemovable given.all (flipped given.bound given.rank) g0) where
    abbrev IsHere : Fleet Graph R → Type κ
    IsHere f = IsAt given level segments few whole carried handled g0 r0 v f

    -- All goroutines of the step have ended, and Wait returns.
    record Waited (f : Fleet Graph R) : Type κ where
      f' : Fleet Graph R
      steps : Goes given level segments f f'
      alive : f'.run.exit ≡ none
      no_pending : f'.run.pending ≡ []
      no_counter : f'.run.counter ≡ 0
      same_todo : f'.run.todo ≡ f.run.todo

    step-Waited : (f : Fleet Graph R) → IsHere f → f.run.exit ≡ none → Waited f
    step-Waited f at alive =
        let started = start_all f.run.pending f alive refl in
        let at1 : IsHere started.f' = FleetSteps-trans at started.steps in
        let finished =
          step-Finished given level segments few whole carried handled g0 r0 v started.f' at1
            started.alive started.no_pending in
        let at2 : IsHere finished.f' = FleetSteps-trans at1 finished.steps in
        record {
          f' = finished.f';
          steps = FleetSteps-trans started.steps finished.steps;
          alive = finished.later.alive;
          no_pending = finished.later.no_pending;
          no_counter = omega (
            arith,
            counter-workers given.intn given.bounded given.all (named given) given.chance level
                segments few whole carried g0 r0 finished.f' at2 finished.later.alive,
            ap (λ (ws : List Worker). length ws) finished.no_workers,
            ap (λ (x : Segments). length x) finished.later.no_pending,
            same,
          );
          same_todo = finished.later.same_todo ∙ started.same_todo;
        }

    steps-pass :
        (todo : List Task) (f : Fleet Graph R)
        → IsHere f
        → f.run.exit ≡ none
        → f.run.todo ≡ todo
        → (f' : Fleet Graph R) × Goes given level segments f f' × HasPassed given.all f'
    unfolding begin
    steps-pass [] f at alive e =
        let w = step-Waited f at alive in
        let at1 : IsHere w.f' = FleetSteps-trans at w.steps in
        (
          _,
          next w.steps (returns w.f' w.alive w.no_pending w.no_counter (w.same_todo ∙ e)),
          returns-HasPassed given.intn given.bounded given.all (named given) given.chance level
              segments few whole carried g0 r0 w.f' at1
              (alive-IsSound given level segments few whole carried handled g0 r0 v at1 w.alive)
              w.no_pending w.no_counter (w.same_todo ∙ e),
        )
    steps-pass (t ∷ ts) f at alive e =
        let w = step-Waited f at alive in
        let more : Goes given level segments f
            (record w.f' { run = begin level segments ts w.f'.run; task = t }) =
          next w.steps (goes_on w.f' t ts w.alive w.no_pending w.no_counter (w.same_todo ∙ e)) in
        let (f', steps, passed) =
          steps-pass ts (record w.f' { run = begin level segments ts w.f'.run; task = t })
            (FleetSteps-trans at more) w.alive refl in
        (f', FleetSteps-trans more steps, passed)

module _ {κ} {R : Type κ} (intn : ℕ → R → ℕ × R)
    (bounded : (n : ℕ) (r : R) → 0 < n → (intn n r).0 < n) (all : AllPackages) (rank : Name → ℕ)
    (bound : ℕ) (is_ready : All (IsReady all all rank) all) (ranks : AllRanked rank bound all)
    (chance level : ℕ) (segments : Segments)
    (made : segment_list_packages all level ≡ some segments) (pos : 0 < level)
    (small : level < int64_bound) (enough : level ≤ length all) where
  abbrev setting : Setting R
  setting = record {
    intn = intn;
    bounded = bounded;
    all = all;
    rank = rank;
    bound = bound;
    is_ready = is_ready;
    chance = chance;
  }

  all-IsNamed : All IsNamed all
  all-IsNamed = All-weaken (IsReady all all rank) IsNamed all (λ p h. h.named) is_ready

  all-Within : All (Within (length all)) all
  all-Within =
      All-weaken (IsReady all all rank) (Within (length all)) all (λ p h. h.within) is_ready

  parts : (flatten segments ≡ all) × (length segments ≡ min level (length all))
  parts =
      part intn bounded all all-IsNamed all-Within chance level segments made pos small
        (omega arith)

  segments-IsHandled : All (All (IsHandled setting)) segments
  segments-IsHandled = All-flatten (IsHandled setting) segments (
      subst (All (IsHandled setting)) (sym parts.0) (
        All-weaken _ (IsHandled setting) all (λ p h. (h.0, h.1.0, h.1.1))
          (All-both (IsReady all all rank) _ all is_ready (All-both _ _ all (members all) ranks))))

  -- The packages' dependencies are among them and rank below the packages that have them, with all
  -- ranks below `bound`, all pointers in the registry and names that the format can carry; there are
  -- at least as many packages as the concurrency level, which is positive; the server's graph has
  -- packages that depend on older ones, and whatever depends on one of the packages is one of them and
  -- ranks above it; the random numbers are in range. Then whatever the unluckiness and however the
  -- goroutines have taken turns so far, as long as the process runs there are further moves with which
  -- it returns from main, with nothing left to do and none of the packages indexed.
  pub FleetSteps-finish :
      (g : Graph) (r : R) (f : Fleet Graph R)
      → IsRemovable all (flipped bound rank) g
      → FleetSteps answer some
          (λ x. x)
          intn
          all
          chance
          level
          segments
          (begin_fleet level segments g r)
          f
      → f.run.exit ≡ none
      → (f' : Fleet Graph R) × FleetSteps answer some (λ x. x) intn all chance level segments f f'
        × HasPassed all f'
  FleetSteps-finish g r f v steps alive =
      steps-pass setting level segments (omega (arith, parts.1, enough)) (omega (arith, parts.1))
        parts.0
        (All-weaken _ _ segments (λ s h. All-weaken _ _ s (λ p q. (q.0.named, q.0.within)) h)
          segments-IsHandled)
        segments-IsHandled g r v f.run.todo f steps alive refl
