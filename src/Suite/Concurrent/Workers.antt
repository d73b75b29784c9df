-- ===== src/Suite/Concurrent/Workers.antt =====
-- What a goroutine has done so far of its segment, in a run over a server that keeps the protocol.
use package_index.Base.{
  ℕ, suc, ◌+◌, Bool, true, false, List, [], ◌∷◌, ◌++◌, ◌≡◌, refl, sym, All, All-append, All-weaken,
  append-nil, length, Name, bytes_eq, arith, if◌then◌else◌,
}
use package_index.Base.Maps.{has}
use package_index.Index.Graph.{Graph, IsOrdered}
use package_index.Suite.Packages.{Package, AllPackages}
use package_index.Suite.Run.{fine}
use package_index.Suite.Run.Passed.{AllHave, no_packages}
use package_index.Suite.Phases.{Task, removes, indexes, verifies}
use package_index.Suite.Concurrent.{Worker, start_worker, Move, goes, done}
use package_index.Suite.Concurrent.Messages.{wanted, scored, IsCarried, IsSure}

-- How the count of a goroutine goes with the packages of its round that have failed, those that are
-- behind it and those that are left.
abbrev pub Tally : Task → ℕ → ℕ → ℕ → ℕ → Type 0
Tally removes count failed behind left = count ≡ failed + left
Tally indexes count failed behind left = count + failed ≡ behind
Tally (verifies c) count failed behind left = failed ≡ 0

-- The packages of the round that are behind it, of which some have failed.
pub record IsOn (all : AllPackages) (t : Task) (g : Graph) (w : Worker) : Type 0 where
  pub passed : List Package
  pub failed : ℕ
  pub carried : All (IsCarried all) w.segment
  pub split : w.segment ≡ passed ++ w.round
  pub tally : Tally t w.count failed (length passed) (length w.round)
  pub reached : failed ≡ 0 → AllHave (wanted t) passed g

-- What has the wish of the step keeps it.
pub record Kept (t : Task) (g g' : Graph) : Type 0 where
  pub ordered : IsOrdered g'
  pub keeps : (x : Name) → has x g ≡ wanted t → has x g' ≡ wanted t

-- A move of a goroutine that does not fail, and ends with the wish of the step for its segment only.
abbrev pub GoesWell {κ} :
    {R : Type κ} → AllPackages → Task → List Package → Graph → (Graph × R) × Move → Type 0
GoesWell all t s g ((g', r), goes v) = IsOn all t g' v × (v.segment ≡ s) × Kept t g g'
GoesWell all t s g ((g', r), done o) = (o ≡ fine) × AllHave (wanted t) s g' × Kept t g g'

pub same-Kept : (t : Task) (g : Graph) → IsOrdered g → Kept t g g
same-Kept t g o = record { ordered = o; keeps = λ x h. h }

abbrev pub missed : ℕ → Bool → ℕ
missed n b = if b then n else suc n

pub start_worker-IsOn :
    (all : AllPackages) (t : Task) (g : Graph) (s : List Package)
    → All (IsCarried all) s
    → IsOn all t g (start_worker t s)
start_worker-IsOn all removes g s c = record {
  passed = s;
  failed = length s;
  carried = c;
  split = sym (append-nil s);
  tally = omega arith;
  reached = λ e. no_packages false s g (omega (arith, e));
}
start_worker-IsOn all indexes g s c = record {
  passed = s;
  failed = length s;
  carried = c;
  split = sym (append-nil s);
  tally = omega arith;
  reached = λ e. no_packages true s g (omega (arith, e));
}
start_worker-IsOn all (verifies code) g s c = record {
  passed = [];
  failed = 0;
  carried = c;
  split = refl;
  tally = refl;
  reached = λ e. tt;
}

pub scored-Tally :
    (t : Task) (n failed behind left : ℕ) (b : Bool)
    → IsSure t b
    → Tally t n failed behind (suc left)
    → Tally t (scored t n b) (missed failed b) (suc behind) left
scored-Tally removes n failed behind left true s h = omega (arith, h)
scored-Tally removes n failed behind left false s h = omega (arith, h)
scored-Tally indexes n failed behind left true s h = omega (arith, h)
scored-Tally indexes n failed behind left false s h = omega (arith, h)
scored-Tally (verifies c) n failed behind left true s h = h
scored-Tally (verifies c) n failed behind left false s h = cc

pub reached-append :
    (b hoped : Bool) (failed : ℕ) (passed : List Package) (p : Package) (g g' : Graph)
    → ((x : Name) → has x g ≡ b → has x g' ≡ b)
    → (hoped ≡ true → has p.name g' ≡ b)
    → (failed ≡ 0 → AllHave b passed g)
    → missed failed hoped ≡ 0
    → AllHave b (passed ++ p ∷ []) g'
reached-append b true failed passed p g g' keeps means h e =
    All-append (λ q. has q.name g' ≡ b) passed (p ∷ [])
      (All-weaken _ _ passed (λ q k. keeps q.name k) (h e)) (means refl, tt)
reached-append b false failed passed p g g' keeps means h e = absurd (omega (arith, e))

-- Another goroutine's move leaves what this one has done.
pub IsOn-keeps :
    (all : AllPackages) (t : Task) (g g' : Graph) (w : Worker)
    → Kept t g g'
    → IsOn all t g w
    → IsOn all t g' w
IsOn-keeps all t g g' w k h = record {
  passed = h.passed;
  failed = h.failed;
  carried = h.carried;
  split = h.split;
  tally = h.tally;
  reached = λ e. All-weaken _ _ h.passed (λ q x. k.keeps q.name x) (h.reached e);
}
