-- ===== src/Suite/Phases/Known.antt =====
-- A run's goroutines work on its segments.
use package_index.Base.{
  ℕ, zero, suc, Option, some, none, List, [], ◌∷◌, ◌≡◌, refl, All, subst, arith,
}
use package_index.Base.Choice.{bring, behind}
use package_index.Suite.Packages.{Package}
use package_index.Suite.Run.{fine, returns_error, panics}
use package_index.Suite.Phases.{
  Segments, Run, wait_done, after_client, fail_run, begin, begin_run, RunStep, RunSteps,
}
use package_index.Suite.Phases as Phases

behind-All {ℓ κ} :
    {A : Type ℓ} (P : A → Type κ) (c : A) (o : Option (A × List A)) (x : A) (rest : List A)
    → P c
    → ((y : A) (ys : List A) → o ≡ some (y, ys) → All P ys)
    → behind c o ≡ some (x, rest)
    → All P rest
behind-All P c none x rest h k e = absurd (ground (arith, e))
behind-All P c (some (d, ds)) x rest h k e =
    let same : c ∷ ds ≡ rest = cc in subst (All P) same (h, k d ds refl)

bring-All {ℓ κ} :
    {A : Type ℓ} (P : A → Type κ) (i : ℕ) (xs : List A) (x : A) (rest : List A)
    → All P xs
    → bring i xs ≡ some (x, rest)
    → All P rest
unfolding bring
bring-All P i [] x rest h e = absurd (ground (arith, e))
bring-All P zero (y ∷ xs) x rest h e = let same : xs ≡ rest = cc in subst (All P) same h.1
bring-All P (suc i) (y ∷ xs) x rest h e =
    behind-All P y (bring i xs) x rest h.0 (λ z zs q. bring-All P i xs z zs h.1 q) e

module _ {κ} (P : List Package → Type κ) where
  -- The segments that are to be started, or run, are segments.
  abbrev pub AreSegments : Run → Type κ
  AreSegments r = r.exit ≡ none → All P r.pending × All P r.running

  wait_done-AreSegments : (n : ℕ) (r : Run) → AreSegments r → AreSegments (wait_done n r)
  wait_done-AreSegments zero r k = λ e. absurd (ground (arith, e))
  wait_done-AreSegments (suc n) r k = k

module _ {κ} (P : List Package → Type κ) {level : ℕ} {segments : Segments}
    (h : All P segments) where
  RunStep-AreSegments : {r t : Run} → RunStep level segments r t → AreSegments P r → AreSegments P t
  unfolding begin after_client fail_run
  RunStep-AreSegments (Phases.starts r s rest alive p) k =
      λ e. let due = subst (All P) p (k alive).0 in (due.1, (due.0, (k alive).1))
  RunStep-AreSegments (Phases.ends r i s rest fine alive e) k =
      wait_done-AreSegments P r.counter (record r { running = rest })
        (λ q. ((k alive).0, bring-All P i r.running s rest (k alive).1 e))
  RunStep-AreSegments (Phases.ends r i s rest returns_error alive e) k =
      λ q. absurd (ground (arith, q))
  RunStep-AreSegments (Phases.ends r i s rest panics alive e) k = λ q. absurd (ground (arith, q))
  RunStep-AreSegments (Phases.goes_on r t ts alive p c e) k = λ q. (h, (k alive).1)
  RunStep-AreSegments (Phases.returns r alive p c e) k = λ q. absurd (ground (arith, q))

  pub RunSteps-AreSegments :
      {r : Run} → RunSteps level segments (begin_run level segments) r → AreSegments P r
  unfolding begin_run begin
  RunSteps-AreSegments Phases.here = λ e. (h, tt)
  RunSteps-AreSegments (Phases.next before last) =
      RunStep-AreSegments last (RunSteps-AreSegments before)
