-- ===== src/Suite/Concurrent/Liveness/Invariants.antt =====
-- More that holds of each state of the run with its goroutines, for packages that can be indexed.
use package_index.Base.{
  ℕ, ◌≤◌, some, none, List, [], ◌∷◌, ◌++◌, ◌≡◌, sym, subst, All, All-right, length, bytes_eq, arith,
  inl, inr,
}
use package_index.Index.Graph.{Graph}
use package_index.Suite.Packages.{Package, AllPackages}
use package_index.Suite.Segments.{flatten}
use package_index.Suite.Run.{unlucky}
use package_index.Suite.Run.Removal.{IsRemovable}
use package_index.Suite.Run.Steps.{unlucky-fine}
use package_index.Suite.Run.OneClient.Grows.{flipped}
use package_index.Suite.Run.Verify.{answer}
use package_index.Suite.Phases.{Task, Segments}
use package_index.Suite.Phases.Known.{RunSteps-AreSegments}
use package_index.Suite.Concurrent.{
  Stage, dials, draws, sends, Worker, Move, goes, done, next_round, message, after_draw,
  after_message, after_round, move_at, move, Fleet, after_move, begin_fleet, FleetStep, FleetSteps,
  segments_of,
}
use package_index.Suite.Concurrent as Concurrent
use package_index.Suite.Concurrent.Messages.{IsCarried, Finds, message-Heard}
use package_index.Suite.Concurrent.Workers.{IsOn}
use package_index.Suite.Concurrent.Preserved.{w-IsOn, w-Finds}
use package_index.Suite.Concurrent.Refinement.{FleetSteps-RunSteps}
use package_index.Suite.Concurrent.Sound.{IsSound}
use package_index.Suite.Concurrent.Passes.{FleetSteps-IsSound}
use package_index.Suite.Concurrent.Liveness.Solo.{Setting, named, IsHandled, Whose-IsRemovable}

-- What holds of a goroutine's segment holds of the rest of its round.
pub round-All {κ} :
    (P : Package → Type κ) (all : AllPackages) (t : Task) (g : Graph) (w : Worker)
    → IsOn all t g w
    → All P w.segment
    → All P w.round
round-All P all t g w on h = All-right P on.passed w.round (subst (All P) on.split h)

module _ {κ} {R : Type κ} (given : Setting R) where
  abbrev IsLeft : (Graph × R) × Move → Type 0
  IsLeft ((g, r), m) = IsRemovable given.all (flipped given.bound given.rank) g

  after_round-IsLeft :
      (g : Graph) (r : R) (m : Move)
      → IsRemovable given.all (flipped given.bound given.rank) g
      → IsLeft (after_round answer some (λ x. x) given.intn given.all given.chance (g, r) m)
  after_round-IsLeft g r (goes w) v = v
  after_round-IsLeft g r (done o) v = v

  after_draw-IsLeft :
      (w : Worker) (g : Graph) (r : R)
      → IsRemovable given.all (flipped given.bound given.rank) g
      → IsLeft (
          after_draw answer some
            (λ x. x)
            given.intn
            given.all
            given.chance
            w
            (unlucky answer given.intn given.chance (g, r)))
  after_draw-IsLeft w g r v =
      let (r', e) = unlucky-fine given.intn given.bounded given.chance g r in
      subst (λ m. IsLeft (after_draw answer some (λ x. x) given.intn given.all given.chance w m))
        (sym e) v

  -- A move leaves a graph that removals work on.
  move_at-IsLeft :
      (t : Task) (w : Worker) (stage : Stage) (round : List Package) (g : Graph) (r : R)
      → All (IsHandled given) round
      → All (λ q. Finds t g q.name) round
      → IsRemovable given.all (flipped given.bound given.rank) g
      → IsLeft
          (move_at answer some (λ x. x) given.intn given.all given.chance t w stage round (g, r))
  unfolding move_at
  move_at-IsLeft t w dials round g r handled finds v = v
  move_at-IsLeft t w draws [] g r handled finds v = after_round-IsLeft g r (next_round t w) v
  move_at-IsLeft t w sends [] g r handled finds v = after_round-IsLeft g r (next_round t w) v
  move_at-IsLeft t w draws (p ∷ rest) g r handled finds v = after_draw-IsLeft w g r v
  move_at-IsLeft t w sends (p ∷ rest) g r handled finds v =
      let h =
        message-Heard given.intn given.all (named given) given.chance t p w.count g r
          (handled.0.0.named, handled.0.0.within) v.ordered finds.0 in
      subst
        (λ m.
          IsLeft (after_message answer some (λ x. x) given.intn given.all given.chance t w rest m))
        (sym h.says) (Whose-IsRemovable given t p g h.after h.hoped handled.0 h.whose v)

  after_move-IsLeft :
      (before after : List Worker) (f : Fleet Graph R) (m : (Graph × R) × Move)
      → IsLeft m
      → IsRemovable given.all (flipped given.bound given.rank) (after_move before after f m).server
  unfolding after_move
  after_move-IsLeft before after f ((g, r), goes w) h = h
  after_move-IsLeft before after f ((g, r), done o) h = h

  module _ (level : ℕ) (segments : Segments) (few : length segments ≤ level)
      (whole : flatten segments ≡ given.all) (carried : All (All (IsCarried given.all)) segments)
      (handled : All (All (IsHandled given)) segments) (g : Graph) (r : R)
      (v : IsRemovable given.all (flipped given.bound given.rank) g) where
    abbrev pub IsReached : Fleet Graph R → Type κ
    IsReached f =
        FleetSteps answer some (λ x. x) given.intn given.all given.chance level segments
          (begin_fleet level segments g r) f

    -- While the process runs, what holds of it.
    pub alive-IsSound :
        {f : Fleet Graph R} → IsReached f → f.run.exit ≡ none → IsSound given.all segments f
    alive-IsSound steps alive =
        elim (FleetSteps-IsSound given.intn given.bounded given.all (named given) given.chance level
          segments few whole carried g r steps v.ordered) [
            | inl sound ↦ sound
            | inr passed ↦ absurd (ground (arith, passed.exits, alive))
          ]

    -- The goroutines' segments are made of packages that can be indexed.
    pub segments-IsHandled :
        (f : Fleet Graph R)
        → IsReached f
        → f.run.exit ≡ none
        → All (All (IsHandled given)) (segments_of f.workers)
    segments-IsHandled f steps alive =
        let (run_steps, manned) = FleetSteps-RunSteps g r f steps in
        subst (All (All (IsHandled given))) (manned alive)
          (RunSteps-AreSegments (All (IsHandled given)) handled run_steps alive).1

    segment-middle :
        (before : List Worker) (w : Worker) (after : List Worker)
        → All (All (IsHandled given)) (segments_of (before ++ (w ∷ after)))
        → All (IsHandled given) w.segment
    segment-middle [] w after h = h.0
    segment-middle (u ∷ before) w after h = segment-middle before w after h.1

    -- A goroutine's packages can be indexed, and what a step that looks has to find is there.
    pub w-IsHandled :
        (f : Fleet Graph R) (before : List Worker) (w : Worker) (after : List Worker)
        → IsReached f
        → f.run.exit ≡ none
        → f.workers ≡ before ++ (w ∷ after)
        → All (IsHandled given) w.segment
          × All (IsHandled given) w.round
          × All (λ q. Finds f.task f.server q.name) w.segment
          × All (λ q. Finds f.task f.server q.name) w.round
    w-IsHandled f before w after steps alive e =
        let sound = alive-IsSound steps alive in
        let on = w-IsOn given.all segments f sound before w after e in
        let finds = w-Finds given.all segments f sound before w after e in
        let its = segment-middle before w after (
          subst (λ ws. All (All (IsHandled given)) (segments_of ws)) e
            (segments-IsHandled f steps alive)) in
        (
          its,
          round-All (IsHandled given) given.all f.task f.server w on its,
          finds,
          round-All (λ q. Finds f.task f.server q.name) given.all f.task f.server w on finds,
        )

    pub FleetSteps-IsRemovable :
        {f : Fleet Graph R}
        → IsReached f
        → IsRemovable given.all (flipped given.bound given.rank) f.server
    unfolding begin_fleet move
    FleetSteps-IsRemovable Concurrent.here = v
    FleetSteps-IsRemovable (Concurrent.next before (Concurrent.starts f s rest alive p)) =
        FleetSteps-IsRemovable before
    FleetSteps-IsRemovable (Concurrent.next before (Concurrent.moves f us w ws alive e)) =
        let (_, hr, _, fr) = w-IsHandled f us w ws before alive e in
        after_move-IsLeft us ws f _ (
          move_at-IsLeft f.task w w.stage w.round f.server f.random hr fr
            (FleetSteps-IsRemovable before))
    FleetSteps-IsRemovable (Concurrent.next before (Concurrent.goes_on f t ts alive p c e)) =
        FleetSteps-IsRemovable before
    FleetSteps-IsRemovable (Concurrent.next before (Concurrent.returns f alive p c e)) =
        FleetSteps-IsRemovable before
