-- ===== src/Suite/Concurrent.antt =====
-- go/src/test-suite/test_run.go: the clients of the test run, which run at the same time.
--
-- Each goroutine has a place in its function. One move of it is its dialling, a random draw with the
-- broken message that this may cost, one message with the response to it, or the start of the next round;
-- the moves of different goroutines follow each other in any order. The clients share the server, whose
-- `send`, `dial` and `close` are parameters, and the numbers of math/rand.
pub mod Refinement
pub mod Messages
pub mod Workers
pub mod Moves
pub mod Sound
pub mod Preserved
pub mod Passes
pub mod Whole
pub mod Liveness
use package_index.Base.{
  ℕ, none, some, Option, List, [], ◌∷◌, ◌++◌, ◌≡◌, map, length, Bytes, ltb, if◌then◌else◌,
}
use package_index.Suite.Client.{ResponseCode}
use package_index.Suite.Packages.{Package, AllPackages}
use package_index.Suite.WireFormat.{make_remove_message, make_query_message}
use package_index.Suite.Run.{
  Outcome, fine, returns_error, panics, Round, counts, stops, removed, send_for, index_package,
  indexed, unlucky,
}
use package_index.Suite.Phases.{
  Task, removes, indexes, verifies, Segments, Run, after_client, begin, begin_run,
}

-- Where a goroutine is: before it has dialled, before a draw, or before a message.
pub data Stage : Type 0 where
  dials draws sends : Stage

pub record Worker : Type 0 where
  pub segment : List Package
  pub stage : Stage
  -- What is left of the round over the segment, and the loop's count.
  pub round : List Package
  pub count : ℕ

-- A goroutine as it is started. The loops of rounds begin with their test.
abbrev pub start_worker : Task → List Package → Worker
start_worker removes s = record { segment = s; stage = dials; round = []; count = length s }
start_worker indexes s = record { segment = s; stage = dials; round = []; count = 0 }
start_worker (verifies c) s = record { segment = s; stage = dials; round = s; count = 0 }

-- A goroutine has more to do, or ends.
pub data Move : Type 0 where
  goes : Worker → Move
  done : Outcome → Move

-- Only the indexing draws a number in front of a message.
abbrev pub ready : Task → Stage
ready removes = sends
ready indexes = draws
ready (verifies c) = sends

-- Behind a round: the test of the loop.
unfoldable pub next_round : Task → Worker → Move
next_round removes w =
    if ltb 0 w.count
    then goes (record w { round = w.segment; count = length w.segment })
    else done fine
next_round indexes w =
    if ltb w.count (length w.segment)
    then goes (record w { round = w.segment; count = 0 })
    else done fine
next_round (verifies c) w = done fine

-- A check that goes through counts nothing.
abbrev pub checked : ℕ → Outcome → Round
checked n fine = counts n
checked n returns_error = stops returns_error
checked n panics = stops panics

abbrev pub with_random {ℓ κ μ} : {S : Type ℓ} {R : Type κ} {A : Type μ} → R → S × A → (S × R) × A
with_random r (s, a) = ((s, r), a)

module _ {ℓ κ} {S : Type ℓ} {R : Type κ} (send : S → Bytes → S × Option ResponseCode)
    (dial : S → Option S) (close : S → S) (intn : ℕ → R → ℕ × R) (all : AllPackages)
    (chance : ℕ) where
  -- The message about a package, when the count is `n`.
  unfoldable pub message : Task → Package → ℕ → S × R → (S × R) × Round
  message removes p n (s, r) = with_random r (removed send n (send s (make_remove_message p)))
  message indexes p n (s, r) = indexed send intn n (index_package send all p s, r)
  message (verifies c) p n (s, r) =
      let (s', o) = send_for send c (some (make_query_message p)) s in ((s', r), checked n o)

  abbrev pub after_dial : Task → Worker → S × R → Option S → (S × R) × Move
  after_dial t w x none = (x, done returns_error)
  after_dial t w (s, r) (some s') = ((s', r), goes (record w { stage = ready t }))

  abbrev pub after_draw : Worker → (S × R) × Outcome → (S × R) × Move
  after_draw w (x, fine) = (x, goes (record w { stage = sends }))
  after_draw w (x, returns_error) = (x, done returns_error)
  after_draw w (x, panics) = (x, done panics)

  abbrev pub after_message : Task → Worker → List Package → (S × R) × Round → (S × R) × Move
  after_message t w rest (x, counts n) =
      (x, goes (record w { stage = ready t; round = rest; count = n }))
  after_message t w rest (x, stops o) = (x, done o)

  -- The deferred `client.Close()`.
  abbrev pub after_round : S × R → Move → (S × R) × Move
  after_round x (goes w) = (x, goes w)
  after_round (s, r) (done o) = ((close s, r), done o)

  unfoldable pub move_at : Task → Worker → Stage → List Package → S × R → (S × R) × Move
  move_at t w dials round x = after_dial t w x (dial x.0)
  move_at t w draws [] x = after_round x (next_round t w)
  move_at t w sends [] x = after_round x (next_round t w)
  move_at t w draws (p ∷ rest) x = after_draw w (unlucky send intn chance x)
  move_at t w sends (p ∷ rest) x = after_message t w rest (message t p w.count x)

  unfoldable pub move : Task → Worker → S × R → (S × R) × Move
  move t w x = move_at t w w.stage w.round x

-- The test run with its goroutines.
pub record Fleet {ℓ κ} (S : Type ℓ) (R : Type κ) : Type (ℓ ⊔ κ) where
  pub run : Run
  -- The step that runs.
  pub task : Task
  pub workers : List Worker
  pub server : S
  pub random : R

abbrev pub segments_of : List Worker → Segments
segments_of ws = map (λ (w : Worker). w.segment) ws

-- The goroutine between `before` and `after` has made a move.
unfoldable pub after_move {ℓ κ} :
    {S : Type ℓ} {R : Type κ} → List Worker → List Worker → Fleet S R → (S × R) × Move → Fleet S R
after_move before after f ((s, r), goes w) = record f {
  workers = before ++ (w ∷ after);
  server = s;
  random = r;
}
after_move before after f ((s, r), done o) = record f {
  run = after_client o (segments_of (before ++ after)) f.run;
  workers = before ++ after;
  server = s;
  random = r;
}

unfoldable pub begin_fleet {ℓ κ} : {S : Type ℓ} {R : Type κ} → ℕ → Segments → S → R → Fleet S R
begin_fleet level segments s r = record {
  run = begin_run level segments;
  task = removes;
  workers = [];
  server = s;
  random = r;
}

module _ {ℓ κ} {S : Type ℓ} {R : Type κ} (send : S → Bytes → S × Option ResponseCode)
    (dial : S → Option S) (close : S → S) (intn : ℕ → R → ℕ × R) (all : AllPackages) (chance : ℕ)
    (level : ℕ) (segments : Segments) where
  -- What can happen next, as long as the process runs.
  pub data FleetStep : Fleet S R → Fleet S R → Type (ℓ ⊔ κ) where
    starts :
        (f : Fleet S R) (s : List Package) (rest : Segments)
        → f.run.exit ≡ none
        → f.run.pending ≡ s ∷ rest
        → FleetStep f (record f {
          run = record f.run { pending = rest; running = s ∷ f.run.running };
          workers = start_worker f.task s ∷ f.workers;
        })
    moves :
        (f : Fleet S R) (before : List Worker) (w : Worker) (after : List Worker)
        → f.run.exit ≡ none
        → f.workers ≡ before ++ (w ∷ after)
        → FleetStep f (
            after_move before after f
              (move send dial close intn all chance f.task w (f.server, f.random)))
    goes_on :
        (f : Fleet S R) (t : Task) (ts : List Task)
        → f.run.exit ≡ none
        → f.run.pending ≡ []
        → f.run.counter ≡ 0
        → f.run.todo ≡ t ∷ ts
        → FleetStep f (record f { run = begin level segments ts f.run; task = t })
    returns :
        (f : Fleet S R)
        → f.run.exit ≡ none
        → f.run.pending ≡ []
        → f.run.counter ≡ 0
        → f.run.todo ≡ []
        → FleetStep f (record f { run = record f.run { exit = some 0 } })

  pub data FleetSteps (f : Fleet S R) : Fleet S R → Type (ℓ ⊔ κ) where
    here : FleetSteps f f
    next : {g h : Fleet S R} → FleetSteps f g → FleetStep g h → FleetSteps f h
