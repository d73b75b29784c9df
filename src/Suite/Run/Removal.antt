-- ===== src/Suite/Run/Removal.antt =====
-- The brute-force rounds remove all packages.
pub mod Drops
pub use Drops.{IsHeld, IsRemovable}
use package_index.Base.{
  ℕ, zero, suc, ◌+◌, ◌-◌, ◌<◌, ◌≤◌, Bool, true, false, some, List, [], ◌∷◌, ◌≡◌, refl, ap, ◌∙◌,
  subst, All, All-weaken, ==-refl, length, Name, bytes_eq, bytes_beq, arith, Bool-cases, inl, inr,
  ltb, if◌then◌else◌, ◌==◌, bytes_beq_iff, Option,
}
use package_index.Base.Maps.{has, erase}
use package_index.Base.Sets.{contains}
use package_index.Index.Graph.{
  Graph, IsOrdered, is_needed, is_needed-dependents, drop_package, erase-IsOrdered, has-erase_self,
}
use package_index.Server.Serve.Session.{spec_handle, verdict}
use package_index.Suite.Client.{ResponseCode, response_code}
use package_index.Suite.Packages.{Package, AllPackages, names, trim_right, keep_unless}
use package_index.Suite.WireFormat.{make_remove_message}
use package_index.Suite.WireFormat.Answers.{IsNamed, make_remove_message-parse}
use package_index.Suite.Run.Verify.{answer, code_of}
use package_index.Suite.Run.{
  counts, fine, removed, remove_round, remove_rounds, bruteforce_removes_all_packages,
}
use package_index.Suite.Run.Passed.{
  Below, AllHave, AllRanked, counted, unranked, no_packages, Passed, nil-Passed, cons-Passed,
}
use Drops.{has-drop_package, has-dropped, drop_package-IsRemovable, forced-free}

-- How the client understands OK and FAIL.
verdict-code :
    (v : Graph × Bool)
    → ◌≡◌ {A = Graph × Option ResponseCode}
        ((verdict v).0, response_code (verdict v).1)
        (v.0, some (code_of v.1))
unfolding response_code trim_right keep_unless bytes_beq
verdict-code (g, true) = refl
verdict-code (g, false) = refl

pub answer_remove :
    (p : Package) (g : Graph)
    → IsNamed p
    → answer g (make_remove_message p)
      ≡ ((drop_package p.name g).0, some (code_of (drop_package p.name g).1))
unfolding answer spec_handle bytes_beq
answer_remove p g n = rw (make_remove_message-parse p n).0 (verdict-code (drop_package p.name g))

abbrev pub left_over : ℕ → Bool → ℕ
left_over n b = if b then n - 1 else n

pub removed_lem :
    (n : ℕ) (g : Graph) (b : Bool)
    → removed answer n (g, some (code_of b)) ≡ (g, counts (left_over n b))
removed_lem n g true = refl
removed_lem n g false = refl

left_over_plus :
    (n l m n' : ℕ) (b : Bool) → suc l ≤ n → n' + m ≡ left_over n b → n' + counted m b ≡ n
left_over_plus n l m n' true h e = omega (arith, e)
left_over_plus n l m n' false h e = e

left_over-le : (n l : ℕ) (b : Bool) → suc l ≤ n → l ≤ left_over n b
left_over-le n l true h = omega arith
left_over-le n l false h = omega arith

not_pos : (n : ℕ) → n ≤ 0 → ltb 0 n ≡ false
not_pos n h = ground arith

-- The packages are among themselves.
pub members : (ps : AllPackages) → All (λ q. contains (names ps) q.name ≡ true) ps
unfolding names contains
members [] = tt
members (p ∷ ps) =
    (ground (arith, ==-refl p.name), All-weaken _ _ ps (λ q h. ground (arith, h)) (members ps))

module _ (ps : AllPackages) (rank : Name → ℕ) where
  round-Passed :
      (k : ℕ) (qs : AllPackages)
      → All IsNamed qs
      → All (λ q. contains (names ps) q.name ≡ true) qs
      → (n : ℕ) (g : Graph) → length qs ≤ n
      → IsRemovable ps rank g
      → Below false ps rank k g
      → (g' : Graph) × (m : ℕ) × (n' : ℕ) × (remove_round answer qs (g, counts n) ≡ (g', counts n'))
        × (n' + m ≡ n)
        × IsRemovable ps rank g'
        × Passed false rank k qs g g' m
  unfolding remove_round
  round-Passed k [] named among n g enough r low =
      (g, 0, n, refl, omega arith, r, nil-Passed false rank k g)
  round-Passed k (p ∷ qs) named among n g enough r low =
      let b = (drop_package p.name g).1 in
      let g1 = (drop_package p.name g).0 in
      let shrink = λ (x : Name). has-drop_package x p.name g in
      let (g', m, n', run, total, r', rest) =
        round-Passed k qs named.1 among.1 (left_over n b) g1 (left_over-le n (length qs) b enough)
          (drop_package-IsRemovable ps rank p.name g r) (λ x c l. shrink x (low x c l)) in
      (
        g',
        counted m b,
        n',
        ap (remove_round answer qs)
              (ap (removed answer n) (answer_remove p g named.0) ∙ removed_lem n g1 b)
            ∙ run,
        left_over_plus n (length qs) m n' b enough total,
        r',
        cons-Passed false rank k p qs g g1 g' m shrink b (has-dropped p.name g r.ordered)
            (forced-free ps rank k p.name g r low among.0) rest,
      )

  rounds-end :
      All IsNamed ps
      → (fuel k n : ℕ) (g : Graph) → AllRanked rank (k + fuel) ps
      → IsRemovable ps rank g
      → Below false ps rank k g
      → (AllRanked rank k ps → n ≤ 0)
      → (n ≤ 0 → AllHave false ps g)
      → (g' : Graph) × (remove_rounds answer fuel ps (g, counts n) ≡ some (g', fine))
        × AllHave false ps g'
        × IsRemovable ps rank g'
  unfolding remove_rounds
  rounds-end named zero k n g ranks r low full means =
      let none_left : n ≤ 0 = full (subst (λ m. AllRanked rank m ps) (omega arith) ranks) in
      (g, rw (not_pos n none_left) refl, means none_left, r)
  rounds-end named (suc fuel) k n g ranks r low full means = elim (Bool-cases (ltb 0 n)) [
    | inl more ↦
        let (g1, m, n1, run, total, r1, passed) =
          round-Passed k ps named (members ps) (length ps) g (omega arith) r low in
        let (g', later, gone, r') =
          rounds-end named fuel (suc k) n1 g1 (subst (λ m. AllRanked rank m ps) (omega arith) ranks)
            r1 passed.reaches (λ a. omega (arith, passed.full a, total))
            (λ a. passed.means (omega (arith, a, total))) in
        (g', rw (more, run) later, gone, r')
    | inr enough ↦ (g, rw enough refl, means (ground (arith, enough)), r)
  ]

  -- The loop ends with none of `ps` in a graph that removals work on again.
  pub bruteforce_removes_all_packages-leaves :
      (bound : ℕ)
      → All IsNamed ps
      → AllRanked rank bound ps
      → (g : Graph) → IsRemovable ps rank g
      → (g' : Graph) × (bruteforce_removes_all_packages answer bound ps g ≡ some (g', fine))
        × AllHave false ps g'
        × IsRemovable ps rank g'
  unfolding bruteforce_removes_all_packages
  bruteforce_removes_all_packages-leaves bound named ranks g r =
      rounds-end named bound 0 (length ps) g (subst (λ m. AllRanked rank m ps) (omega arith) ranks)
        r (λ x c l. absurd (omega (arith, l))) (unranked ps rank) (no_packages false ps g)

  -- One client, the only one of a server that keeps the protocol and has room for every line,
  -- brute-forces the removal of the packages `ps`, with names that the format can carry, from a
  -- graph whose packages depend on older ones, in which whatever depends on one of `ps` is one of
  -- `ps` and ranks below it, with all ranks below `bound`: the loop ends without an error in at most
  -- `bound` rounds, and none of `ps` is indexed then.
  pub bruteforce_removes_all_packages-ends :
      (bound : ℕ)
      → All IsNamed ps
      → AllRanked rank bound ps
      → (g : Graph) → IsRemovable ps rank g
      → (g' : Graph) × (bruteforce_removes_all_packages answer bound ps g ≡ some (g', fine))
        × AllHave false ps g'
  bruteforce_removes_all_packages-ends bound named ranks g r =
      let (g', run, gone, _) = bruteforce_removes_all_packages-leaves bound named ranks g r in
      (g', run, gone)
