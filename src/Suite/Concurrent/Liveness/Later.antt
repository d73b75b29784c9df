-- ===== src/Suite/Concurrent/Liveness/Later.antt =====
-- A goroutine's moves and its end, as moves of the run with its goroutines.
use package_index.Base.{
  ℕ, zero, suc, ◌<◌, some, none, Option, Bytes, List, [], ◌∷◌, ◌++◌, ◌≡◌, refl, ap, sym, ◌∙◌, subst,
  All, All-weaken, Name, bytes_eq, arith,
}
use package_index.Base.Maps.{has}
use package_index.Index.Graph.{Graph}
use package_index.Suite.Client.{ResponseCode}
use package_index.Suite.Packages.{AllPackages}
use package_index.Suite.Run.{fine}
use package_index.Suite.Run.Verify.{answer}
use package_index.Suite.Phases.{Task, Segments, Run, wait_done, after_client}
use package_index.Suite.Concurrent.{
  Worker, done, Fleet, after_move, FleetStep, FleetSteps, moves, here, next, segments_of,
}
use package_index.Suite.Concurrent.Messages.{wanted}
use package_index.Suite.Concurrent.Liveness.Solo.{Setting, moved, Solo, still, then_goes}
use package_index.Suite.Concurrent.Liveness.Round.{IsLow}

pub FleetSteps-trans {ℓ κ} :
    {S : Type ℓ} {R : Type κ} {send : S → Bytes → S × Option ResponseCode} {dial : S → Option S}
    {close : S → S} {intn : ℕ → R → ℕ × R} {all : AllPackages} {chance level : ℕ}
    {segments : Segments} {f g h : Fleet S R}
    → FleetSteps send dial close intn all chance level segments f g
    → FleetSteps send dial close intn all chance level segments g h
    → FleetSteps send dial close intn all chance level segments f h
FleetSteps-trans first here = first
FleetSteps-trans first (next before last) = next (FleetSteps-trans first before) last

abbrev pub crew {κ} : {R : Type κ} → Fleet Graph R → List Worker → Graph → R → Fleet Graph R
crew f ws g r = record f { workers = ws; server = g; random = r }

-- Later in the same step of the run, with what the step wants kept.
pub record IsLater {κ} {R : Type κ} (f f' : Fleet Graph R) : Type 0 where
  pub alive : f'.run.exit ≡ none
  pub no_pending : f'.run.pending ≡ []
  pub same_task : f'.task ≡ f.task
  pub same_todo : f'.run.todo ≡ f.run.todo
  pub keeps : (x : Name) → has x f.server ≡ wanted f.task → has x f'.server ≡ wanted f.task

-- Nothing has happened yet.
pub same-IsLater {κ} :
    {R : Type κ} (f : Fleet Graph R) → f.run.exit ≡ none → f.run.pending ≡ [] → IsLater f f
same-IsLater f alive p = record {
  alive = alive;
  no_pending = p;
  same_task = refl;
  same_todo = refl;
  keeps = λ x h. h;
}

pub IsLater-trans {κ} :
    {R : Type κ} (f g h : Fleet Graph R) → IsLater f g → IsLater g h → IsLater f h
IsLater-trans f g h a b = record {
  alive = b.alive;
  no_pending = b.no_pending;
  same_task = b.same_task ∙ a.same_task;
  same_todo = b.same_todo ∙ a.same_todo;
  keeps = λ x e. b.keeps x (a.keeps x e ∙ ap wanted (sym a.same_task)) ∙ ap wanted a.same_task;
}

module _ {κ} {R : Type κ} (given : Setting R) (level : ℕ) (segments : Segments) where
  abbrev pub Goes : Fleet Graph R → Fleet Graph R → Type κ
  Goes f f' = FleetSteps answer some (λ x. x) given.intn given.all given.chance level segments f f'

  -- One goroutine's moves are the run's.
  pub Solo-FleetSteps :
      (f : Fleet Graph R) (before : List Worker) (w : Worker) (after : List Worker) (g : Graph)
      (r : R) (w' : Worker) (g' : Graph) (r' : R)
      → f.run.exit ≡ none
      → Solo given f.task w g r w' g' r'
      → Goes (crew f (before ++ (w ∷ after)) g r) (crew f (before ++ (w' ∷ after)) g' r')
  unfolding after_move
  Solo-FleetSteps f before w after g r _ _ _ alive still = here
  Solo-FleetSteps f before w after g r _ _ _ alive (then_goes {w1} {g1} {r1} w2 g2 r2 solo e) =
      next (Solo-FleetSteps f before w after g r w1 g1 r1 alive solo) (
        subst
          (λ m.
            FleetStep answer some (λ x. x) given.intn given.all given.chance level segments
              (crew f (before ++ (w1 ∷ after)) g1 r1)
              (after_move before after (crew f (before ++ (w1 ∷ after)) g1 r1) m))
          e (moves (crew f (before ++ (w1 ∷ after)) g1 r1) before w1 after alive refl))

  -- The run without a goroutine that has ended.
  abbrev pub relieved : Fleet Graph R → List Worker → List Worker → Graph → R → Fleet Graph R
  relieved f before after g r = record f {
    run = wait_done f.run.counter (record f.run { running = segments_of (before ++ after) });
    workers = before ++ after;
    server = g;
    random = r;
  }

  pub relieved-FleetSteps :
      (f : Fleet Graph R) (before : List Worker) (w : Worker) (after : List Worker) (g : Graph)
      (r : R)
      → f.run.exit ≡ none
      → moved given f.task w g r ≡ ((g, r), done fine)
      → Goes (crew f (before ++ (w ∷ after)) g r) (relieved f before after g r)
  unfolding after_move after_client
  relieved-FleetSteps f before w after g r alive e = next here (
      subst
        (λ m.
          FleetStep answer some (λ x. x) given.intn given.all given.chance level segments
            (crew f (before ++ (w ∷ after)) g r)
            (after_move before after (crew f (before ++ (w ∷ after)) g r) m))
        e (moves (crew f (before ++ (w ∷ after)) g r) before w after alive refl))

  wait_done-kept :
      (n : ℕ) (r : Run)
      → 0 < n
      → ((wait_done n r).exit ≡ r.exit)
        × ((wait_done n r).pending ≡ r.pending)
        × ((wait_done n r).todo ≡ r.todo)
  wait_done-kept zero r h = absurd (omega (arith, h))
  wait_done-kept (suc n) r h = (refl, refl, refl)

  pub relieved-IsLater :
      (f : Fleet Graph R) (before after : List Worker) (g : Graph) (r : R)
      → 0 < f.run.counter
      → f.run.exit ≡ none
      → f.run.pending ≡ []
      → ((x : Name) → has x f.server ≡ wanted f.task → has x g ≡ wanted f.task)
      → IsLater f (relieved f before after g r)
  relieved-IsLater f before after g r pos alive p keeps =
      let k =
        wait_done-kept f.run.counter (record f.run { running = segments_of (before ++ after) })
          pos in
      record {
        alive = k.0 ∙ alive;
        no_pending = k.1 ∙ p;
        same_task = refl;
        same_todo = k.2;
        keeps = keeps;
      }

  -- The packages of a goroutine's segment that rank low are as its step wants them.
  abbrev pub IsServed : Task → ℕ → Graph → Worker → Type 0
  IsServed t k g w = All (λ q. IsLow given t k q → has q.name g ≡ wanted t) w.segment

  pub IsServed-keeps :
      (t : Task) (k : ℕ) (g g' : Graph) (ws : List Worker)
      → ((x : Name) → has x g ≡ wanted t → has x g' ≡ wanted t)
      → All (IsServed t k g) ws
      → All (IsServed t k g') ws
  IsServed-keeps t k g g' ws keeps h =
      All-weaken _ _ ws
        (λ w s. All-weaken _ _ w.segment (λ q reached l. keeps q.name (reached l)) s) h
