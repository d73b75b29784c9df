-- ===== src/Suite/Concurrent/Liveness/Turn.antt =====
-- A goroutine's turn: the rest of its round, and one round more, unless it ends before.
use package_index.Base.{
  ℕ, ◌⊎◌, some, List, [], ◌≡◌, refl, ap, ◌∙◌, All, All-weaken, length, Name, bytes_eq, arith,
  Bool-cases, inl, inr, ltb,
}
use package_index.Base.Maps.{has}
use package_index.Index.Graph.{Graph}
use package_index.Suite.Packages.{Package}
use package_index.Suite.Run.{fine}
use package_index.Suite.Run.Removal.{IsRemovable}
use package_index.Suite.Run.OneClient.Grows.{flipped}
use package_index.Suite.Run.Verify.{answer}
use package_index.Suite.Phases.{Task, removes, indexes, verifies}
use package_index.Suite.Concurrent.{
  Stage, dials, draws, sends, Worker, goes, done, ready, next_round, after_round, move_at, move,
}
use package_index.Suite.Concurrent.Messages.{wanted, Finds}
use package_index.Suite.Concurrent.Sound.{Finds-keeps}
use package_index.Suite.Concurrent.Liveness.Solo.{
  Setting, IsHandled, moved, Solo, still, then_goes, Solo-trans, IsUp, ready-IsUp, worker_at,
}
use package_index.Suite.Concurrent.Liveness.Round.{IsClean, IsLow, IsBelow, ToEnd, round-ToEnd}

-- Behind a round a goroutine ends, or begins a clean one.
next_round-cases :
    (t : Task) (s : List Package) (stage : Stage) (n : ℕ)
    → (next_round t (record { segment = s; stage = stage; round = []; count = n }) ≡ done fine)
      ⊎ ((m : ℕ) × (next_round t (record { segment = s; stage = stage; round = []; count = n })
            ≡ goes (record { segment = s; stage = stage; round = s; count = m }))
          × IsClean t s m s)
unfolding next_round
next_round-cases removes s stage n = elim (Bool-cases (ltb 0 n)) [
  | inl more ↦ inr (length s, rw more refl, refl)
  | inr enough ↦ inl (rw enough refl)
]
next_round-cases indexes s stage n = elim (Bool-cases (ltb n (length s))) [
  | inl more ↦ inr (0, rw more refl, omega arith)
  | inr enough ↦ inl (rw enough refl)
]
next_round-cases (verifies c) s stage n = inl refl

-- Behind a clean round it ends.
clean-ends :
    (t : Task) (s : List Package) (stage : Stage) (n : ℕ)
    → IsClean t s n []
    → next_round t (record { segment = s; stage = stage; round = []; count = n }) ≡ done fine
unfolding next_round
clean-ends removes s stage n h = ground (arith, h)
clean-ends indexes s stage n h = ground (arith, h)
clean-ends (verifies c) s stage n h = refl

module _ {κ} {R : Type κ} (given : Setting R) (t : Task) (k : ℕ) where
  -- The move behind a round.
  moved-round :
      (s : List Package) (stage : Stage) (n : ℕ) (g : Graph) (r : R)
      → IsUp given stage
      → moved given t (worker_at given s stage [] n) g r
        ≡ after_round answer some
            (λ x. x)
            given.intn
            given.all
            given.chance
            (g, r)
            (next_round t (record { segment = s; stage = stage; round = []; count = n }))
  unfolding move move_at
  moved-round s dials n g r up = elim up [ ]
  moved-round s draws n g r up = refl
  moved-round s sends n g r up = refl

  moved-dials :
      (s round : List Package) (n : ℕ) (g : Graph) (r : R)
      → moved given t (worker_at given s dials round n) g r
        ≡ ((g, r), goes (worker_at given s (ready t) round n))
  unfolding move move_at
  moved-dials s round n g r = refl

  abbrev pub Ends : Worker → Graph → R → Type κ
  Ends w g r = moved given t w g r ≡ ((g, r), done fine)

  -- The goroutine is about to end, or the packages of its segment that rank low are as the step wants
  -- them; if these are all, it is about to end.
  pub record Turn (w : Worker) (g : Graph) (r : R) : Type κ where
    pub w' : Worker
    pub g' : Graph
    pub r' : R
    pub solo : Solo given t w g r w' g' r'
    pub segment : w'.segment ≡ w.segment
    pub removable : IsRemovable given.all (flipped given.bound given.rank) g'
    pub keeps : (x : Name) → has x g ≡ wanted t → has x g' ≡ wanted t
    pub result : Ends w' g' r' ⊎ All (λ q. IsLow given t k q → has q.name g' ≡ wanted t) w.segment
    pub last : All (IsLow given t k) w.segment → Ends w' g' r'

  second-Turn :
      (s round : List Package) (stage : Stage) (n : ℕ) (g : Graph) (r : R)
      → All (IsHandled given) s
      → All (λ q. Finds t g q.name) s
      → IsBelow given t k g
      → (end : ToEnd given t k s stage round n g r) → Turn (worker_at given s stage round n) g r
  second-Turn s round stage n g r handled finds low end =
      let behind = moved-round s end.stage' end.n' end.g' end.r' end.up in
      elim (next_round-cases t s end.stage' end.n') [
        | inl over ↦
            let ends : Ends (worker_at given s end.stage' [] end.n') end.g' end.r' =
              behind
              ∙ ap
                  (after_round answer some (λ x. x) given.intn given.all given.chance
                    (end.g', end.r'))
                  over in
            record {
              w' = worker_at given s end.stage' [] end.n';
              g' = end.g';
              r' = end.r';
              solo = end.solo;
              segment = refl;
              removable = end.removable;
              keeps = end.keeps;
              result = inl ends;
              last = λ l. ends;
            }
        | inr (m, again, clean) ↦
            let begins =
              behind
              ∙ ap
                  (after_round answer some (λ x. x) given.intn given.all given.chance
                    (end.g', end.r'))
                  again in
            let more =
              round-ToEnd given t k s s end.stage' m end.g' end.r' end.up handled
                (All-weaken _ _ s
                  (λ q f.
                    Finds-keeps t g end.g' q.name
                      (record { ordered = end.removable.ordered; keeps = end.keeps }) f)
                  finds)
                end.removable (λ x c l. end.keeps x (low x c l)) in
            record {
              w' = worker_at given s more.stage' [] more.n';
              g' = more.g';
              r' = more.r';
              solo = Solo-trans given (then_goes _ _ _ end.solo begins) more.solo;
              segment = refl;
              removable = more.removable;
              keeps = λ x e. more.keeps x (end.keeps x e);
              result = inr more.reached;
              last = λ l.
                  moved-round s more.stage' more.n' more.g' more.r' more.up
                  ∙ ap
                      (after_round answer some (λ x. x) given.intn given.all given.chance
                        (more.g', more.r'))
                      (clean-ends t s more.stage' more.n' (more.clean l clean));
            }
      ]

  up-Turn :
      (s round : List Package) (stage : Stage) (n : ℕ) (g : Graph) (r : R)
      → IsUp given stage
      → All (IsHandled given) s
      → All (IsHandled given) round
      → All (λ q. Finds t g q.name) s
      → All (λ q. Finds t g q.name) round
      → IsRemovable given.all (flipped given.bound given.rank) g
      → IsBelow given t k g
      → Turn (worker_at given s stage round n) g r
  up-Turn s round stage n g r up hs hr fs fr v low =
      second-Turn s round stage n g r hs fs low
        (round-ToEnd given t k s round stage n g r up hr fr v low)

  stage-Turn :
      (s round : List Package) (stage : Stage) (n : ℕ) (g : Graph) (r : R)
      → All (IsHandled given) s
      → All (IsHandled given) round
      → All (λ q. Finds t g q.name) s
      → All (λ q. Finds t g q.name) round
      → IsRemovable given.all (flipped given.bound given.rank) g
      → IsBelow given t k g
      → Turn (worker_at given s stage round n) g r
  stage-Turn s round dials n g r hs hr fs fr v low =
      let turn = up-Turn s round (ready t) n g r (ready-IsUp given t) hs hr fs fr v low in
      record {
        w' = turn.w';
        g' = turn.g';
        r' = turn.r';
        solo = Solo-trans given (then_goes _ _ _ still (moved-dials s round n g r)) turn.solo;
        segment = turn.segment;
        removable = turn.removable;
        keeps = turn.keeps;
        result = turn.result;
        last = turn.last;
      }
  stage-Turn s round draws n g r hs hr fs fr v low =
      up-Turn s round draws n g r tt hs hr fs fr v low
  stage-Turn s round sends n g r hs hr fs fr v low =
      up-Turn s round sends n g r tt hs hr fs fr v low

  pub worker-Turn :
      (w : Worker) (g : Graph) (r : R)
      → All (IsHandled given) w.segment
      → All (IsHandled given) w.round
      → All (λ q. Finds t g q.name) w.segment
      → All (λ q. Finds t g q.name) w.round
      → IsRemovable given.all (flipped given.bound given.rank) g
      → IsBelow given t k g
      → Turn w g r
  worker-Turn w g r hs hr fs fr v low =
      stage-Turn w.segment w.round w.stage w.count g r hs hr fs fr v low
