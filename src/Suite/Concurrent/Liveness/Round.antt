-- ===== src/Suite/Concurrent/Liveness/Round.antt =====
-- A goroutine goes through a round over its segment.
use package_index.Base.{
  ℕ, suc, ◌+◌, ◌<◌, Bool, true, false, List, [], ◌∷◌, ◌≡◌, All, All-weaken, length, Name, bytes_eq,
  arith,
}
use package_index.Base.Maps.{has}
use package_index.Index.Graph.{Graph}
use package_index.Suite.Packages.{Package}
use package_index.Suite.Run.Passed.{Below}
use package_index.Suite.Run.Removal.{IsRemovable}
use package_index.Suite.Run.OneClient.Grows.{flipped}
use package_index.Suite.Phases.{Task, removes, indexes, verifies}
use package_index.Suite.Concurrent.{Stage, ready}
use package_index.Suite.Concurrent.Messages.{wanted, scored, Finds, message-Heard}
use package_index.Suite.Concurrent.Workers.{Kept}
use package_index.Suite.Concurrent.Sound.{Finds-keeps}
use package_index.Suite.Concurrent.Liveness.Solo.{
  Setting, named, IsHandled, rank_for, Whose-IsRemovable, Whose-hoped, Solo, still, Solo-trans,
  IsUp, ready-IsUp, worker_at, package-Solo,
}

-- The count of a round in which nothing has failed.
abbrev pub IsClean : Task → List Package → ℕ → List Package → Type 0
IsClean removes s n round = n ≡ length round
IsClean indexes s n round = n + length round ≡ length s
IsClean (verifies c) s n round = Unit

scored-IsClean :
    (t : Task) (s : List Package) (n : ℕ) (p : Package) (rest : List Package) (hoped : Bool)
    → hoped ≡ true
    → IsClean t s n (p ∷ rest)
    → IsClean t s (scored t n hoped) rest
scored-IsClean removes s n p rest true e h = omega (arith, h)
scored-IsClean indexes s n p rest true e h = omega (arith, h)
scored-IsClean (verifies c) s n p rest true e h = tt
scored-IsClean t s n p rest false e h = cc

module _ {κ} {R : Type κ} (given : Setting R) (t : Task) (k : ℕ) where
  abbrev pub IsLow : Package → Type 0
  IsLow p = rank_for given t p.name < suc k

  abbrev pub IsBelow : Graph → Type 0
  IsBelow g = Below (wanted t) given.all (rank_for given t) k g

  -- The goroutine has gone to the end of the round, and its packages that rank low are as the step wants
  -- them.
  pub record ToEnd (s : List Package) (stage : Stage) (round : List Package) (n : ℕ) (g : Graph)
      (r : R) : Type κ where
    pub stage' : Stage
    pub n' : ℕ
    pub g' : Graph
    pub r' : R
    pub solo :
        Solo given t (worker_at given s stage round n) g r (worker_at given s stage' [] n') g' r'
    pub up : IsUp given stage'
    pub removable : IsRemovable given.all (flipped given.bound given.rank) g'
    pub keeps : (x : Name) → has x g ≡ wanted t → has x g' ≡ wanted t
    pub reached : All (λ q. IsLow q → has q.name g' ≡ wanted t) round
    pub clean : All IsLow round → IsClean t s n round → IsClean t s n' []

  pub round-ToEnd :
      (s : List Package) (round : List Package) (stage : Stage) (n : ℕ) (g : Graph) (r : R)
      → IsUp given stage
      → All (IsHandled given) round
      → All (λ q. Finds t g q.name) round
      → IsRemovable given.all (flipped given.bound given.rank) g
      → IsBelow g
      → ToEnd s stage round n g r
  round-ToEnd s [] stage n g r up handled finds v low = record {
    stage' = stage;
    n' = n;
    g' = g;
    r' = r;
    solo = still;
    up = up;
    removable = v;
    keeps = λ x h. h;
    reached = tt;
    clean = λ l c. c;
  }
  round-ToEnd s (p ∷ rest) stage n g r up handled finds v low =
      let (r1, h, solo) = package-Solo given t s stage p rest n g r up (λ r1.
        message-Heard given.intn given.all (named given) given.chance t p n g r1
          (handled.0.0.named, handled.0.0.within) v.ordered finds.0) in
      let v1 = Whose-IsRemovable given t p g h.after h.hoped handled.0 h.whose v in
      let kept : Kept t g h.after = record { ordered = h.ordered; keeps = h.keeps } in
      let hoped : IsLow p → h.hoped ≡ true =
        (λ l. Whose-hoped given t k p g h.after h.hoped handled.0 h.whose v low l) in
      let later =
        round-ToEnd s rest (ready t) (scored t n h.hoped) h.after r1 (ready-IsUp given t) handled.1
          (All-weaken _ _ rest (λ q f. Finds-keeps t g h.after q.name kept f) finds.1) v1
          (λ x c l. h.keeps x (low x c l)) in
      record {
        stage' = later.stage';
        n' = later.n';
        g' = later.g';
        r' = later.r';
        solo = Solo-trans given solo later.solo;
        up = later.up;
        removable = later.removable;
        keeps = λ x e. later.keeps x (h.keeps x e);
        reached = (λ l. later.keeps p.name (h.means (hoped l)), later.reached);
        clean = λ l c. later.clean l.1 (scored-IsClean t s n p rest h.hoped (hoped l.0) c);
      }
