-- ===== src/Suite/Concurrent/Liveness/Sweep.antt =====
-- All goroutines take a turn, one after the other.
use package_index.Base.{
  ℕ, ◌<◌, ◌≤◌, none, List, [], ◌∷◌, ◌++◌, ◌≡◌, refl, ap, sym, subst, All, length, bytes_eq, arith,
  inl, inr,
}
use package_index.Base.Maps.{has}
use package_index.Index.Graph.{Graph}
use package_index.Suite.Segments.{flatten}
use package_index.Suite.Run.Removal.{IsRemovable}
use package_index.Suite.Run.OneClient.Grows.{flipped}
use package_index.Suite.Phases.{Segments}
use package_index.Suite.Concurrent.{Worker, Fleet}
use package_index.Suite.Concurrent.Messages.{wanted, IsCarried}
use package_index.Suite.Concurrent.Passes.{counter-workers, length-middle}
use package_index.Suite.Concurrent.Liveness.Solo.{Setting, named, IsHandled}
use package_index.Suite.Concurrent.Liveness.Round.{IsLow, IsBelow}
use package_index.Suite.Concurrent.Liveness.Turn.{Ends, Turn, worker-Turn}
use package_index.Suite.Concurrent.Liveness.Invariants.{
  IsReached, w-IsHandled, FleetSteps-IsRemovable,
}
use package_index.Suite.Concurrent.Liveness.Later.{
  FleetSteps-trans, crew, IsLater, Goes, Solo-FleetSteps, relieved, relieved-FleetSteps,
  relieved-IsLater, IsServed,
}

module _ {κ} {R : Type κ} (given : Setting R) (level : ℕ) (segments : Segments)
    (few : length segments ≤ level) (whole : flatten segments ≡ given.all)
    (carried : All (All (IsCarried given.all)) segments)
    (handled : All (All (IsHandled given)) segments) (g0 : Graph) (r0 : R)
    (v : IsRemovable given.all (flipped given.bound given.rank) g0) where
  abbrev pub IsAt : Fleet Graph R → Type κ
  IsAt f = IsReached given level segments few whole carried handled g0 r0 v f

  -- Behind a goroutine's turn it has ended, or its packages that rank low are as the step wants them.
  pub record Turned (f : Fleet Graph R) (before : List Worker) (after : List Worker) (k : ℕ)
      : Type κ where
    pub f' : Fleet Graph R
    pub steps : Goes given level segments f f'
    pub later : IsLater f f'
    pub middle : List Worker
    pub workers : f'.workers ≡ before ++ (middle ++ after)
    pub served : All (IsServed given level segments f.task k f'.server) middle

  abbrev pub IsAllBelow : ℕ → Fleet Graph R → Type 0
  IsAllBelow k f = IsBelow given f.task k f.server

  pub w-Turn :
      (f : Fleet Graph R) (before : List Worker) (w : Worker) (after : List Worker) (k : ℕ)
      → IsAt f
      → f.run.exit ≡ none
      → f.workers ≡ before ++ (w ∷ after)
      → IsAllBelow k f
      → Turn given f.task k w f.server f.random
  w-Turn f before w after k at alive e low =
      let (hs, hr, fs, fr) =
        w-IsHandled given level segments few whole carried handled g0 r0 v f before w after at alive
          e in
      worker-Turn given f.task k w f.server f.random hs hr fs fr
        (FleetSteps-IsRemovable given level segments few whole carried handled g0 r0 v at) low

  Turn-FleetSteps :
      (f : Fleet Graph R) (before : List Worker) (w : Worker) (after : List Worker) (k : ℕ)
      → f.run.exit ≡ none
      → f.workers ≡ before ++ (w ∷ after)
      → (turn : Turn given f.task k w f.server f.random)
      → Goes given level segments f (crew f (before ++ (turn.w' ∷ after)) turn.g' turn.r')
  Turn-FleetSteps f before w after k alive e turn =
      subst
        (λ ws.
          Goes given level segments (crew f ws f.server f.random)
            (crew f (before ++ (turn.w' ∷ after)) turn.g' turn.r'))
        (sym e)
        (Solo-FleetSteps given level segments f before w after f.server f.random turn.w' turn.g'
          turn.r' alive turn.solo)

  counter_pos :
      (f : Fleet Graph R) (before : List Worker) (w : Worker) (after : List Worker)
      → IsAt f
      → f.run.exit ≡ none
      → f.workers ≡ before ++ (w ∷ after)
      → 0 < f.run.counter
  counter_pos f before w after at alive e = omega (
    arith,
    counter-workers given.intn given.bounded given.all (named given) given.chance level segments few
        whole carried g0 r0 f at alive,
    ap (λ (ws : List Worker). length ws) e,
    length-middle before w after,
    few,
  )

  -- The run when a goroutine has ended.
  pub record Gone (f : Fleet Graph R) (before : List Worker) (after : List Worker) : Type κ where
    pub f' : Fleet Graph R
    pub steps : Goes given level segments f f'
    pub later : IsLater f f'
    pub workers : f'.workers ≡ before ++ after

  pub end-Gone :
      (f : Fleet Graph R) (before : List Worker) (w : Worker) (after : List Worker) (k : ℕ)
      → IsAt f
      → f.run.exit ≡ none
      → f.run.pending ≡ []
      → f.workers ≡ before ++ (w ∷ after)
      → (turn : Turn given f.task k w f.server f.random)
      → Ends given f.task k turn.w' turn.g' turn.r'
      → Gone f before after
  end-Gone f before w after k at alive p e turn ends = record {
    f' = relieved given level segments f before after turn.g' turn.r';
    steps = FleetSteps-trans (Turn-FleetSteps f before w after k alive e turn) (
        relieved-FleetSteps given level segments f before turn.w' after turn.g' turn.r' alive ends);
    later =
        relieved-IsLater given level segments f before after turn.g' turn.r'
          (counter_pos f before w after at alive e) alive p turn.keeps;
    workers = refl;
  }

  Gone-Turned :
      (f : Fleet Graph R) (before after : List Worker) (k : ℕ)
      → Gone f before after
      → Turned f before after k
  Gone-Turned f before after k gone = record {
    f' = gone.f';
    steps = gone.steps;
    later = gone.later;
    middle = [];
    workers = gone.workers;
    served = tt;
  }

  stay-Turned :
      (f : Fleet Graph R) (before : List Worker) (w : Worker) (after : List Worker) (k : ℕ)
      → f.run.exit ≡ none
      → f.run.pending ≡ []
      → f.workers ≡ before ++ (w ∷ after)
      → (turn : Turn given f.task k w f.server f.random)
      → IsServed given level segments f.task k turn.g' w
      → Turned f before after k
  stay-Turned f before w after k alive p e turn served = record {
    f' = crew f (before ++ (turn.w' ∷ after)) turn.g' turn.r';
    steps = Turn-FleetSteps f before w after k alive e turn;
    later = record {
      alive = alive;
      no_pending = p;
      same_task = refl;
      same_todo = refl;
      keeps = turn.keeps;
    };
    middle = turn.w' ∷ [];
    workers = refl;
    served = (
      subst (All (λ q. IsLow given f.task k q → has q.name turn.g' ≡ wanted f.task))
          (sym turn.segment) served,
      tt,
    );
  }

  pub w-Turned :
      (f : Fleet Graph R) (before : List Worker) (w : Worker) (after : List Worker) (k : ℕ)
      → IsAt f
      → f.run.exit ≡ none
      → f.run.pending ≡ []
      → f.workers ≡ before ++ (w ∷ after)
      → IsAllBelow k f
      → Turned f before after k
  w-Turned f before w after k at alive p e low =
      let turn = w-Turn f before w after k at alive e low in
      elim turn.result [
        | inl ends ↦
            Gone-Turned f before after k (end-Gone f before w after k at alive p e turn ends)
        | inr served ↦ stay-Turned f before w after k alive p e turn served
      ]
