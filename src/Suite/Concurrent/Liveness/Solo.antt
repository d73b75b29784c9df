-- ===== src/Suite/Concurrent/Liveness/Solo.antt =====
-- Moves of one goroutine behind each other, over a server that keeps the protocol.
use package_index.Base.{
  ℕ, suc, ◌<◌, Bool, true, some, List, ◌∷◌, ◌≡◌, ap, sym, ◌∙◌, subst, All, All-weaken, Name,
  bytes_eq, arith,
}
use package_index.Base.Sets.{contains}
use package_index.Index.{range}
use package_index.Index.Graph.{Graph, add_package}
use package_index.Server.WireFormat.Grammar.{deps_of}
use package_index.Suite.Packages.{Package, AllPackages, names}
use package_index.Suite.WireFormat.Answers.{IsNamed}
use package_index.Suite.Run.Passed.{IsReady, Below}
use package_index.Suite.Run.Removal.{IsRemovable}
use package_index.Suite.Run.Removal.Drops.{drop_package-IsRemovable, forced-free}
use package_index.Suite.Run.Steps.{add_package-ready, has_all-deps_of, unlucky-fine}
use package_index.Suite.Run.OneClient.Grows.{flipped, add_package-IsRemovable}
use package_index.Suite.Run.Verify.{answer}
use package_index.Suite.Phases.{Task, removes, indexes, verifies}
use package_index.Suite.Concurrent.{
  Stage, dials, draws, sends, Worker, Move, goes, ready, after_draw, after_message, move_at, move,
}
use package_index.Suite.Concurrent.Messages.{wanted, scored, Whose, Heard}

-- The random numbers, the packages with ranks for their order, and the unluckiness.
pub record Setting {κ} (R : Type κ) : Type κ where
  pub intn : ℕ → R → ℕ × R
  pub bounded : (n : ℕ) (r : R) → 0 < n → (intn n r).0 < n
  pub all : AllPackages
  pub rank : Name → ℕ
  pub bound : ℕ
  pub is_ready : All (IsReady all all rank) all
  pub chance : ℕ

module _ {κ} {R : Type κ} (given : Setting R) where
  pub named : All IsNamed given.all
  named =
      All-weaken (IsReady given.all given.all given.rank) IsNamed given.all (λ p h. h.named)
        given.is_ready

  -- A package that ranks low enough for the index, and is among all packages.
  abbrev pub IsHandled : Package → Type 0
  IsHandled p =
      IsReady given.all given.all given.rank p
      × (contains (names given.all) p.name ≡ true)
      × (given.rank p.name < given.bound)

  -- What a step has to do first ranks lower.
  abbrev pub rank_for : Task → Name → ℕ
  rank_for removes = flipped given.bound given.rank
  rank_for indexes = given.rank
  rank_for (verifies c) = given.rank

  pub Whose-IsRemovable :
      (t : Task) (p : Package) (g g' : Graph) (hoped : Bool)
      → IsHandled p
      → Whose given.all t p g g' hoped
      → IsRemovable given.all (flipped given.bound given.rank) g
      → IsRemovable given.all (flipped given.bound given.rank) g'
  Whose-IsRemovable removes p g g' hoped h (e, _) v =
      subst (IsRemovable given.all (flipped given.bound given.rank)) (sym e)
        (drop_package-IsRemovable given.all (flipped given.bound given.rank) p.name g v)
  Whose-IsRemovable indexes p g g' hoped h (ns, at, e, _) v =
      let same : h.0.deps ≡ ns = cc (h.0.deps_at, at) in
      subst (IsRemovable given.all (flipped given.bound given.rank))
        (ap (λ ds. (add_package p.name (range (deps_of ds)) g).0) same ∙ sym e)
        (add_package-IsRemovable given.all given.all given.rank given.bound p h.0 g h.1 h.2 v)
  Whose-IsRemovable (verifies c) p g g' hoped h (e, _) v =
      subst (IsRemovable given.all (flipped given.bound given.rank)) (sym e) v

  -- With all that ranks lower as the step wants it, the response is as hoped for.
  pub Whose-hoped :
      (t : Task) (k : ℕ) (p : Package) (g g' : Graph) (hoped : Bool)
      → IsHandled p
      → Whose given.all t p g g' hoped
      → IsRemovable given.all (flipped given.bound given.rank) g
      → Below (wanted t) given.all (rank_for t) k g
      → rank_for t p.name < suc k
      → hoped ≡ true
  Whose-hoped removes k p g g' hoped h (_, e) v low l =
      e ∙ forced-free given.all (flipped given.bound given.rank) k p.name g v low h.1 l
  Whose-hoped indexes k p g g' hoped h (ns, at, _, e) v low l =
      let same : h.0.deps ≡ ns = cc (h.0.deps_at, at) in
      e
      ∙ ap (λ ds. (add_package p.name (range (deps_of ds)) g).1) (sym same)
      ∙ add_package-ready p.name _ g (
          has_all-deps_of h.0.deps g
            (All-weaken _ _ h.0.deps (λ d rk. low d rk.1 (omega (arith, rk.0, l))) h.0.ranked))
  Whose-hoped (verifies c) k p g g' hoped h (_, e) v low l = e

  abbrev pub moved : Task → Worker → Graph → R → (Graph × R) × Move
  moved t w g r = move answer some (λ x. x) given.intn given.all given.chance t w (g, r)

  -- Some moves of a goroutine.
  pub data Solo (t : Task) (w : Worker) (g : Graph) (r : R) : Worker → Graph → R → Type κ where
    still : Solo t w g r w g r
    then_goes :
        {w1 : Worker} {g1 : Graph} {r1 : R} (w2 : Worker) (g2 : Graph) (r2 : R)
        → Solo t w g r w1 g1 r1
        → moved t w1 g1 r1 ≡ ((g2, r2), goes w2)
        → Solo t w g r w2 g2 r2

  pub Solo-trans :
      {t : Task} {w w1 : Worker} {g g1 : Graph} {r r1 : R} {w2 : Worker} {g2 : Graph} {r2 : R}
      → Solo t w g r w1 g1 r1
      → Solo t w1 g1 r1 w2 g2 r2
      → Solo t w g r w2 g2 r2
  Solo-trans first still = first
  Solo-trans first (then_goes w2 g2 r2 before e) = then_goes w2 g2 r2 (Solo-trans first before) e

  -- Any stage but the first.
  abbrev pub IsUp : Stage → Type 0
  IsUp dials = ⊥
  IsUp draws = Unit
  IsUp sends = Unit

  pub ready-IsUp : (t : Task) → IsUp (ready t)
  ready-IsUp removes = tt
  ready-IsUp indexes = tt
  ready-IsUp (verifies c) = tt

  abbrev pub worker_at : List Package → Stage → List Package → ℕ → Worker
  worker_at s stage round n = record { segment = s; stage = stage; round = round; count = n }

  -- The message about the next package.
  sends-Solo :
      (t : Task) (s rest : List Package) (p : Package) (n : ℕ) (g : Graph) (r : R)
      (h : Heard given.intn given.all given.chance t p n g r)
      → moved t (worker_at s sends (p ∷ rest) n) g r
        ≡ ((h.after, r), goes (worker_at s (ready t) rest (scored t n h.hoped)))
  unfolding move move_at
  sends-Solo t s rest p n g r h =
      ap
        (after_message answer some (λ x. x) given.intn given.all given.chance t
          (worker_at s sends (p ∷ rest) n) rest)
        h.says

  draws-Solo :
      (t : Task) (s rest : List Package) (p : Package) (n : ℕ) (g : Graph) (r : R)
      → (r' : R) × (moved t (worker_at s draws (p ∷ rest) n) g r
          ≡ ((g, r'), goes (worker_at s sends (p ∷ rest) n)))
  unfolding move move_at
  draws-Solo t s rest p n g r =
      let (r', e) = unlucky-fine given.intn given.bounded given.chance g r in
      (
        r',
        ap
            (after_draw answer some (λ x. x) given.intn given.all given.chance
              (worker_at s draws (p ∷ rest) n))
            e,
      )

  -- A draw, if the goroutine is in front of one, and the message.
  pub package-Solo :
      (t : Task) (s : List Package) (stage : Stage) (p : Package) (rest : List Package) (n : ℕ)
      (g : Graph) (r : R)
      → IsUp stage
      → ((r' : R) → Heard given.intn given.all given.chance t p n g r')
      → (r' : R) × (h : Heard given.intn given.all given.chance t p n g r') × Solo t
          (worker_at s stage (p ∷ rest) n)
          g
          r
          (worker_at s (ready t) rest (scored t n h.hoped))
          h.after
          r'
  package-Solo t s dials p rest n g r up h = elim up [ ]
  package-Solo t s sends p rest n g r up h =
      (r, h r, then_goes _ _ _ still (sends-Solo t s rest p n g r (h r)))
  package-Solo t s draws p rest n g r up h =
      let (r', e) = draws-Solo t s rest p n g r in
      (r', h r', then_goes _ _ _ (then_goes _ _ _ still e) (sends-Solo t s rest p n g r' (h r')))
