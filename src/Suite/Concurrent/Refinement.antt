-- ===== src/Suite/Concurrent/Refinement.antt =====
-- The run with its goroutines is one of the runs in which the end of a goroutine's work is open.
use package_index.Base.{
  ℕ, suc, none, some, Option, List, [], ◌∷◌, ◌++◌, ◌≡◌, refl, ap, sym, ◌∙◌, length, Bytes, arith,
  zero, ltb, Bool-cases, inl, inr,
}
use package_index.Base.Choice.{bring, behind}
use package_index.Suite.Client.{ResponseCode}
use package_index.Suite.Packages.{Package, AllPackages}
use package_index.Suite.Run.{Outcome, fine, returns_error, panics, Round, counts, stops, unlucky}
use package_index.Suite.Phases.{
  Task, removes, indexes, verifies, Segments, Run, wait_done, after_client, fail_run, begin,
  begin_run, RunSteps, here, next,
}
use package_index.Suite.Phases as Phases
use package_index.Suite.Concurrent.{
  Stage, dials, draws, sends, Worker, start_worker, Move, goes, done, next_round, message,
  after_dial, after_draw, after_message, after_round, move_at, move, Fleet, segments_of, after_move,
  begin_fleet, FleetStep, FleetSteps,
}
use package_index.Suite.Concurrent as Concurrent

-- A goroutine that goes on works on the segment that it was started with.
abbrev Keeps {ℓ} : {X : Type ℓ} → List Package → X × Move → Type 0
Keeps s (x, goes w) = w.segment ≡ s
Keeps s (x, done o) = Unit

bring-append {ℓ} :
    {A : Type ℓ} (before : List A) (x : A) (after : List A)
    → bring (length before) (before ++ (x ∷ after)) ≡ some (x, before ++ after)
unfolding bring
bring-append [] x after = refl
bring-append (y ∷ before) x after = ap (behind y) (bring-append before x after)

pub segments_of-append :
    (before after : List Worker)
    → segments_of (before ++ after) ≡ segments_of before ++ segments_of after
segments_of-append [] after = refl
segments_of-append (w ∷ before) after = ap (◌∷◌ w.segment) (segments_of-append before after)

segments_of-middle :
    (before : List Worker) (w : Worker) (after : List Worker)
    → bring (length (segments_of before)) (segments_of (before ++ (w ∷ after)))
      ≡ some (w.segment, segments_of (before ++ after))
segments_of-middle before w after =
    rw (segments_of-append before (w ∷ after), segments_of-append before after)
      (bring-append (segments_of before) w.segment (segments_of after))

pub segments_of-replace :
    (before : List Worker) (w v : Worker) (after : List Worker)
    → v.segment ≡ w.segment
    → segments_of (before ++ (v ∷ after)) ≡ segments_of (before ++ (w ∷ after))
segments_of-replace [] w v after e = ap (λ s. s ∷ segments_of after) e
segments_of-replace (u ∷ before) w v after e =
    ap (◌∷◌ u.segment) (segments_of-replace before w v after e)

-- While the process runs, its goroutines are those of the run.
abbrev pub IsManned {ℓ κ} : {S : Type ℓ} {R : Type κ} → Fleet S R → Type 0
IsManned f = f.run.exit ≡ none → f.run.running ≡ segments_of f.workers

pub segment-start_worker : (t : Task) (s : List Package) → (start_worker t s).segment ≡ s
segment-start_worker removes s = refl
segment-start_worker indexes s = refl
segment-start_worker (verifies c) s = refl

running-wait_done : (n : ℕ) (r : Run) → (wait_done n r).running ≡ r.running
running-wait_done zero r = refl
running-wait_done (suc n) r = refl

running-after_client :
    (o : Outcome) (rest : Segments) (r : Run)
    → (after_client o rest r).exit ≡ none
    → (after_client o rest r).running ≡ rest
unfolding after_client fail_run
running-after_client fine rest r h = running-wait_done r.counter (record r { running = rest })
running-after_client returns_error rest r h = absurd (ground (arith, h))
running-after_client panics rest r h = absurd (ground (arith, h))

module _ {ℓ κ} {S : Type ℓ} {R : Type κ} (send : S → Bytes → S × Option ResponseCode)
    (dial : S → Option S) (close : S → S) (intn : ℕ → R → ℕ × R) (all : AllPackages)
    (chance : ℕ) where
  after_dial-Keeps :
      (t : Task) (w : Worker) (x : S × R) (o : Option S)
      → Keeps w.segment (after_dial send dial close intn all chance t w x o)
  after_dial-Keeps t w x none = tt
  after_dial-Keeps t w x (some s) = refl

  after_draw-Keeps :
      (w : Worker) (m : (S × R) × Outcome)
      → Keeps w.segment (after_draw send dial close intn all chance w m)
  after_draw-Keeps w (x, fine) = refl
  after_draw-Keeps w (x, returns_error) = tt
  after_draw-Keeps w (x, panics) = tt

  after_message-Keeps :
      (t : Task) (w : Worker) (rest : List Package) (m : (S × R) × Round)
      → Keeps w.segment (after_message send dial close intn all chance t w rest m)
  after_message-Keeps t w rest (x, counts n) = refl
  after_message-Keeps t w rest (x, stops o) = tt

  after_round-Keeps :
      (t : Task) (w : Worker) (x : S × R)
      → Keeps w.segment (after_round send dial close intn all chance x (next_round t w))
  unfolding next_round
  after_round-Keeps removes w x = elim (Bool-cases (ltb 0 w.count)) [
    | inl more ↦ rw more refl
    | inr enough ↦ rw enough tt
  ]
  after_round-Keeps indexes w x = elim (Bool-cases (ltb w.count (length w.segment))) [
    | inl more ↦ rw more refl
    | inr enough ↦ rw enough tt
  ]
  after_round-Keeps (verifies c) w x = tt

  move_at-Keeps :
      (t : Task) (w : Worker) (stage : Stage) (round : List Package) (x : S × R)
      → Keeps w.segment (move_at send dial close intn all chance t w stage round x)
  unfolding move_at
  move_at-Keeps t w dials round x = after_dial-Keeps t w x (dial x.0)
  move_at-Keeps t w draws [] x = after_round-Keeps t w x
  move_at-Keeps t w sends [] x = after_round-Keeps t w x
  move_at-Keeps t w draws (p ∷ rest) x = after_draw-Keeps w (unlucky send intn chance x)
  move_at-Keeps t w sends (p ∷ rest) x =
      after_message-Keeps t w rest (message send dial close intn all chance t p w.count x)

-- What the steps of a run and of its goroutines have in common.
abbrev IsRun {ℓ κ} : {S : Type ℓ} {R : Type κ} → ℕ → Segments → Fleet S R → Type 0
IsRun level segments f = RunSteps level segments (begin_run level segments) f.run × IsManned f

after_move-IsRun {ℓ κ} :
    {S : Type ℓ} {R : Type κ} (level : ℕ) (segments : Segments) (before : List Worker) (w : Worker)
    (after : List Worker) (f : Fleet S R) (m : (S × R) × Move)
    → f.run.exit ≡ none
    → f.workers ≡ before ++ (w ∷ after)
    → Keeps w.segment m
    → IsRun level segments f
    → IsRun level segments (after_move before after f m)
unfolding after_move
after_move-IsRun level segments before w after f ((s, r), goes v) alive e k (steps, manned) =
    (steps, λ h. manned alive ∙ ap segments_of e ∙ sym (segments_of-replace before w v after k))
after_move-IsRun level segments before w after f ((s, r), done o) alive e k (steps, manned) = (
  next steps (
      Phases.ends f.run (length (segments_of before)) w.segment (segments_of (before ++ after)) o
        alive
        (ap (bring (length (segments_of before))) (manned alive ∙ ap segments_of e)
          ∙ segments_of-middle before w after)),
  running-after_client o (segments_of (before ++ after)) f.run,
)

module _ {ℓ κ} {S : Type ℓ} {R : Type κ} {send : S → Bytes → S × Option ResponseCode}
    {dial : S → Option S} {close : S → S} {intn : ℕ → R → ℕ × R} {all : AllPackages} {chance : ℕ}
    {level : ℕ} {segments : Segments} where
  FleetStep-IsRun :
      {f f' : Fleet S R}
      → FleetStep send dial close intn all chance level segments f f'
      → IsRun level segments f
      → IsRun level segments f'
  unfolding begin move
  FleetStep-IsRun (Concurrent.starts f s rest alive p) (steps, manned) = (
    next steps (Phases.starts f.run s rest alive p),
    λ h.
        ap (◌∷◌ s) (manned alive)
        ∙ ap (λ x. x ∷ segments_of f.workers) (sym (segment-start_worker f.task s)),
  )
  FleetStep-IsRun (Concurrent.moves f before w after alive e) h =
      after_move-IsRun level segments before w after f _ alive e
        (move_at-Keeps send dial close intn all chance f.task w w.stage w.round
          (f.server, f.random))
        h
  FleetStep-IsRun (Concurrent.goes_on f t ts alive p c e) (steps, manned) =
      (next steps (Phases.goes_on f.run t ts alive p c e), λ h. manned alive)
  FleetStep-IsRun (Concurrent.returns f alive p c e) (steps, manned) =
      (next steps (Phases.returns f.run alive p c e), λ h. manned alive)

  FleetSteps-IsRun :
      (s : S) (r : R) (f : Fleet S R)
      → FleetSteps send dial close intn all chance level segments (begin_fleet level segments s r) f
      → IsRun level segments f
  unfolding begin_fleet begin_run begin
  FleetSteps-IsRun s r f Concurrent.here = (here, λ h. refl)
  FleetSteps-IsRun s r f (Concurrent.next {g} before last) =
      FleetStep-IsRun last (FleetSteps-IsRun s r g before)

  -- Whatever the server, the dialling and the random numbers do, any moves of the goroutines, in any
  -- order, are moves of a run in which each goroutine's end is open, and while the process runs its
  -- goroutines are the running ones there.
  pub FleetSteps-RunSteps :
      (s : S) (r : R) (f : Fleet S R)
      → FleetSteps send dial close intn all chance level segments (begin_fleet level segments s r) f
      → RunSteps level segments (begin_run level segments) f.run
        × (f.run.exit ≡ none → f.run.running ≡ segments_of f.workers)
  FleetSteps-RunSteps s r f steps = FleetSteps-IsRun s r f steps
