-- ===== src/Suite/Run/Steps.antt =====
-- One package of a brute-force round, sent to a server that keeps the protocol.
use package_index.Base.{
  ℕ, ◌<◌, ◌%◌, Bool, true, false, some, List, [], ◌∷◌, ◌++◌, ◌≡◌, refl, subst, All, length, Name,
  bytes_eq, nat_eq, arith, bytes_beq, Bool-cases, inl, inr, ◌==◌, ==-refl,
}
use package_index.Base.Maps.{has}
use package_index.Base.Sets.{add}
use package_index.Index.{range}
use package_index.Index.Graph.{Graph, add_package, has_all}
use package_index.Server.WireFormat.Grammar.{deps_of}
use package_index.Server.WireFormat.Grammar.{add_all}
use package_index.Server.Serve.Session.{spec_handle, verdict}
use package_index.Suite.Client.{ok, response_code}
use package_index.Suite.Packages.{Package, AllPackages, trim_right, keep_unless}
use package_index.Suite.Packages.Registry.{Within}
use package_index.Suite.WireFormat.{choices, names_at}
use package_index.Suite.WireFormat.Answers.{
  IsNamed, make_index_message-parse, make_broken_message-IsRejected,
}
use package_index.Suite.Run.Verify.{answer}
use package_index.Suite.Run.{
  Outcome, fine, outcome, is_code, send_for, index_package, should_something_bad_happen,
  send_broken_message, unlucky,
}

pub has-add_package :
    (x k : Name) (ds : List Name) (g : Graph) → has x g ≡ true → has x (add_package k ds g).0 ≡ true
unfolding add_package has
has-add_package x k ds g h = ground arith

-- A package that is added is there.
pub has-added :
    (k : Name) (ds : List Name) (g : Graph)
    → (add_package k ds g).1 ≡ true
    → has k (add_package k ds g).0 ≡ true
unfolding add_package has
has-added k ds g h = ground (arith, ==-refl k)

pub add_package-ready :
    (k : Name) (ds : List Name) (g : Graph) → has_all ds g ≡ true → (add_package k ds g).1 ≡ true
unfolding add_package
add_package-ready k ds g h = ground arith

has_all-append :
    (xs ys : List Name) (g : Graph)
    → has_all xs g ≡ true
    → has_all ys g ≡ true
    → has_all (xs ++ ys) g ≡ true
unfolding has_all
has_all-append [] ys g h k = k
has_all-append (x ∷ xs) ys g h k = ground (arith, has_all-append xs ys g)

has_all-add :
    (s : List Name) (d : Name) (g : Graph)
    → has_all s g ≡ true
    → has d g ≡ true
    → has_all (add s d) g ≡ true
unfolding has_all add
has_all-add s d g h k = ground (arith, has_all-append s (d ∷ []) g)

has_all-add_all :
    (ds s : List Name) (g : Graph)
    → has_all s g ≡ true
    → All (λ d. has d g ≡ true) ds
    → has_all (add_all s ds) g ≡ true
has_all-add_all [] s g h k = h
has_all-add_all (d ∷ ds) s g h k = has_all-add_all ds (add s d) g (has_all-add s d g h k.0) k.1

pub has_all-deps_of :
    (ds : List Name) (g : Graph)
    → All (λ d. has d g ≡ true) ds
    → has_all (range (deps_of ds)) g ≡ true
unfolding has_all
has_all-deps_of [] g h = refl
has_all-deps_of (d ∷ ds) g h = has_all-add_all (d ∷ ds) [] g refl h

-- How the client understands OK and FAIL.
verdict-heard :
    (v : Graph × Bool)
    → ◌≡◌ {A = Graph × Outcome}
        ((verdict v).0, outcome (is_code ok (response_code (verdict v).1)))
        (v.0, outcome v.1)
unfolding response_code trim_right keep_unless bytes_beq
verdict-heard (g, true) = refl
verdict-heard (g, false) = refl

-- The server adds the package, and the client hears whether it did.
pub index_package-answer :
    (all : AllPackages) (p : Package) (g : Graph) (ns : List Name)
    → All IsNamed all
    → IsNamed p
    → Within (length all) p
    → names_at all p.dependencies ≡ some ns
    → index_package answer all p g ≡ (
      (add_package p.name (range (deps_of ns)) g).0,
      outcome (add_package p.name (range (deps_of ns)) g).1,
    )
unfolding index_package send_for answer spec_handle bytes_beq response_code trim_right keep_unless
index_package-answer all p g ns h n w at =
    let (ms, msg, there, made, reads) = make_index_message-parse all p h n w in
    let e : ms ≡ ns = cc in
    subst
      (λ ds. index_package answer all p g ≡ (
        (add_package p.name (range (deps_of ds)) g).0,
        outcome (add_package p.name (range (deps_of ds)) g).1,
      ))
      e (rw (made, reads) (verdict-heard (add_package p.name (range (deps_of ms)) g)))

choices_pos : (kind : ℕ) → 0 < choices kind
choices_pos kind = elim (Bool-cases (kind % 2 == 0)) [
  | inl even ↦ rw even (omega arith)
  | inr odd ↦ rw odd (omega arith)
]

module _ {κ} {R : Type κ} (intn : ℕ → R → ℕ × R)
    (bounded : (n : ℕ) (r : R) → 0 < n → (intn n r).0 < n) where
  broken-fine :
      (g : Graph) (r : R) → (r' : R) × (send_broken_message answer intn (g, r) ≡ ((g, r'), fine))
  unfolding send_broken_message send_for answer response_code trim_right keep_unless bytes_beq
  broken-fine g r =
      let kind = (intn 10 r).0 in
      let r1 = (intn 10 r).1 in
      let (msg, made, rejected) =
        make_broken_message-IsRejected kind (intn (choices kind) r1).0
          (bounded (choices kind) r1 (choices_pos kind)) in
      ((intn (choices kind) r1).1, rw (made, rejected g) refl)

  -- Bad luck costs a random number or three, and leaves the index as it is.
  pub unlucky-fine :
      (chance : ℕ) (g : Graph) (r : R)
      → (r' : R) × (unlucky answer intn chance (g, r) ≡ ((g, r'), fine))
  unfolding unlucky
  unlucky-fine chance g r = elim (Bool-cases (should_something_bad_happen answer intn chance r).0) [
    | inl bad ↦ rw bad (broken-fine g (should_something_bad_happen answer intn chance r).1)
    | inr lucky ↦ ((should_something_bad_happen answer intn chance r).1, rw lucky refl)
  ]
