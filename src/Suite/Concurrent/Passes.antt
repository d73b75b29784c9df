-- ===== src/Suite/Concurrent/Passes.antt =====
-- The test passes, however its goroutines take turns.
use package_index.Base.{
  ℕ, suc, ◌+◌, ◌<◌, ◌≤◌, true, false, ◌⊎◌, some, none, List, [], ◌∷◌, ◌++◌, ◌≡◌, refl, ap, sym, ◌∙◌,
  subst, All, length, Name, bytes_eq, arith, inl, inr,
}
use package_index.Base.Maps.{has}
use package_index.Base.Sets.{contains}
use package_index.Index.Graph.{Graph, IsOrdered}
use package_index.Suite.Packages.{Package, AllPackages, names}
use package_index.Suite.Segments.{flatten}
use package_index.Suite.WireFormat.Answers.{IsNamed}
use package_index.Suite.Run.Passed.{AllHave}
use package_index.Suite.Run.Verify.{answer}
use package_index.Suite.Phases.{Task, Segments, begin, begin_run}
use package_index.Suite.Phases.Counter.{RunSteps-IsAhead, begin_run-IsAhead}
use package_index.Suite.Concurrent.{
  Worker, Fleet, segments_of, begin_fleet, FleetStep, FleetSteps, starts, moves, goes_on, returns,
  here, next,
}
use package_index.Suite.Concurrent.Messages.{wanted, IsCarried}
use package_index.Suite.Concurrent.Workers.{IsOn}
use package_index.Suite.Concurrent.Moves.{move-GoesWell}
use package_index.Suite.Concurrent.Refinement.{FleetSteps-RunSteps}
use package_index.Suite.Concurrent.Sound.{
  mentions, mentions-flatten, All-of_names, Follows, IsSound, Follows-Finds, Follows-next,
}
use package_index.Suite.Concurrent.Preserved.{starts-IsSound, after_move-IsSound, w-IsOn, w-Finds}

pub length-segments_of : (ws : List Worker) → length (segments_of ws) ≡ length ws
length-segments_of [] = refl
length-segments_of (w ∷ ws) = ap suc (length-segments_of ws)

no_workers : (ws : List Worker) → length ws ≤ 0 → ws ≡ []
no_workers [] h = refl
no_workers (w ∷ ws) h = absurd (omega (arith, h))

pub length-middle :
    (before : List Worker) (w : Worker) (after : List Worker) → 0 < length (before ++ (w ∷ after))
length-middle [] w after = omega arith
length-middle (v ∷ before) w after = omega arith

-- A run that has come to its end, with all goroutines of all steps behind it.
pub record HasPassed {κ} {R : Type κ} (all : AllPackages) (f : Fleet Graph R) : Type 0 where
  pub exits : f.run.exit ≡ some 0
  pub no_todo : f.run.todo ≡ []
  pub no_pending : f.run.pending ≡ []
  pub no_running : f.run.running ≡ []
  pub gone : AllHave false all f.server

module _ {κ} {R : Type κ} (intn : ℕ → R → ℕ × R)
    (bounded : (n : ℕ) (r : R) → 0 < n → (intn n r).0 < n) (all : AllPackages)
    (named : All IsNamed all) (chance level : ℕ) (segments : Segments)
    (few : length segments ≤ level) (whole : flatten segments ≡ all)
    (carried : All (All (IsCarried all)) segments) (g : Graph) (r : R) where
  abbrev pub Reaches : Fleet Graph R → Type κ
  Reaches f =
      FleetSteps answer some (λ x. x) intn all chance level segments
        (begin_fleet level segments g r) f

  -- The counter is ahead of the goroutines by as much as the level is ahead of the segments.
  pub counter-workers :
      (f : Fleet Graph R)
      → Reaches f
      → f.run.exit ≡ none
      → f.run.counter + length segments ≡ level + (length f.run.pending + length f.workers)
  counter-workers f steps alive =
      let (run_steps, manned) = FleetSteps-RunSteps g r f steps in
      omega (
        arith,
        RunSteps-IsAhead few run_steps (begin_run-IsAhead level segments) alive,
        ap (λ (x : Segments). length x) (manned alive),
        length-segments_of f.workers,
      )

  -- When Wait returns, no goroutine is left.
  pub workers-Wait :
      (f : Fleet Graph R)
      → Reaches f
      → f.run.exit ≡ none
      → f.run.pending ≡ []
      → f.run.counter ≡ 0
      → f.workers ≡ []
  workers-Wait f steps alive p c =
      no_workers f.workers
        (omega (arith, counter-workers f steps alive, ap (λ (x : Segments). length x) p, c, few))

  -- Then each package is as the step wanted it.
  all_wanted :
      (f : Fleet Graph R)
      → Reaches f
      → IsSound all segments f
      → f.run.pending ≡ []
      → f.run.counter ≡ 0
      → (x : Name) → mentions segments x ≡ true
      → has x f.server ≡ wanted f.task
  unfolding mentions
  all_wanted f steps sound p c x a = sound.accounted x a (ap (λ (s : Segments). mentions s x) p) (
      ap (λ (ws : List Worker). mentions (segments_of ws) x) (workers-Wait f steps sound.alive p c))

  goes_on-IsSound :
      (f : Fleet Graph R) (t : Task) (ts : List Task)
      → Reaches f
      → IsSound all segments f
      → f.run.pending ≡ []
      → f.run.counter ≡ 0
      → f.run.todo ≡ t ∷ ts
      → IsSound all segments (record f { run = begin level segments ts f.run; task = t })
  unfolding begin mentions
  goes_on-IsSound f t ts steps sound p c e =
      let none_left = workers-Wait f steps sound.alive p c in
      let follows : Follows f.task (t ∷ ts) = subst (Follows f.task) e sound.follows in
      record {
        alive = sound.alive;
        ordered = sound.ordered;
        working = subst (All (IsOn all t f.server)) (sym none_left) tt;
        due = carried;
        pending_known = λ x a. a;
        running_known = sound.running_known;
        accounted = λ x a b d. cc;
        finds =
            λ x a. Follows-Finds f.task t ts f.server x follows (all_wanted f steps sound p c x a);
        follows = Follows-next f.task t ts follows;
      }

  pub returns-HasPassed :
      (f : Fleet Graph R)
      → Reaches f
      → IsSound all segments f
      → f.run.pending ≡ []
      → f.run.counter ≡ 0
      → f.run.todo ≡ []
      → HasPassed all (record f { run = record f.run { exit = some 0 } })
  returns-HasPassed f steps sound p c e =
      let last : Follows f.task [] = subst (Follows f.task) e sound.follows in
      record {
        exits = refl;
        no_todo = e;
        no_pending = p;
        no_running =
            (FleetSteps-RunSteps g r f steps).1 sound.alive
            ∙ ap segments_of (workers-Wait f steps sound.alive p c);
        gone =
            All-of_names (λ x. has x f.server ≡ false) all
              (λ x a.
                all_wanted f steps sound p c x (
                  mentions-flatten segments x
                  ∙ ap (λ (q : List Package). contains (names q) x) whole
                  ∙ a)
                ∙ last);
      }

  FleetStep-passes :
      {f f' : Fleet Graph R}
      → Reaches f
      → IsSound all segments f
      → FleetStep answer some (λ x. x) intn all chance level segments f f'
      → IsSound all segments f' ⊎ HasPassed all f'
  FleetStep-passes steps sound (starts f s rest alive p) =
      inl (starts-IsSound all segments f sound s rest p)
  FleetStep-passes steps sound (moves f before w after alive e) = inl (
      after_move-IsSound all segments f sound before w after e _
        (omega (
          arith,
          counter-workers f steps alive,
          ap (λ (ws : List Worker). length ws) e,
          length-middle before w after,
          few,
        ))
        (move-GoesWell all f.server w intn bounded named chance sound.ordered f.task f.random
          (w-Finds all segments f sound before w after e)
          (w-IsOn all segments f sound before w after e)))
  FleetStep-passes steps sound (goes_on f t ts alive p c e) =
      inl (goes_on-IsSound f t ts steps sound p c e)
  FleetStep-passes steps sound (returns f alive p c e) = inr (returns-HasPassed f steps sound p c e)

  begin_fleet-IsSound : IsOrdered g → IsSound all segments (begin_fleet level segments g r)
  unfolding begin_fleet begin_run begin mentions
  begin_fleet-IsSound o = record {
    alive = refl;
    ordered = o;
    working = tt;
    due = carried;
    pending_known = λ x a. a;
    running_known = λ x a. cc;
    accounted = λ x a b d. cc;
    finds = λ x a. tt;
    follows = (refl, (refl, refl));
  }

  alive-FleetStep :
      {f f' : Fleet Graph R}
      → FleetStep answer some (λ x. x) intn all chance level segments f f'
      → f.run.exit ≡ none
  alive-FleetStep (starts f s rest alive p) = alive
  alive-FleetStep (moves f before w after alive e) = alive
  alive-FleetStep (goes_on f t ts alive p c e) = alive
  alive-FleetStep (returns f alive p c e) = alive

  pub FleetSteps-IsSound :
      {f : Fleet Graph R} → Reaches f → IsOrdered g → IsSound all segments f ⊎ HasPassed all f
  FleetSteps-IsSound here o = inl (begin_fleet-IsSound o)
  FleetSteps-IsSound (next before last) o = elim (FleetSteps-IsSound before o) [
    | inl sound ↦ FleetStep-passes before sound last
    | inr passed ↦ absurd (ground (arith, passed.exits, alive-FleetStep last))
  ]
