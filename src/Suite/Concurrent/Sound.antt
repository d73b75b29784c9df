-- ===== src/Suite/Concurrent/Sound.antt =====
-- What holds of the run with its goroutines while it goes on, over a server that keeps the protocol.
use package_index.Base.{
  Bool, true, false, ◌||◌, none, List, [], ◌∷◌, ◌++◌, ◌≡◌, refl, ap, sym, ◌∙◌, subst, All, Name,
  bytes_eq, bytes_beq_iff, ==-refl, ◌==◌, arith, Bool-cases, inl, inr,
}
use package_index.Base.Maps.{has}
use package_index.Base.Sets.{contains, contains-append}
use package_index.Index.Graph.{Graph, IsOrdered}
use package_index.Suite.Client.{ResponseCode, ok, fail, error}
use package_index.Suite.Packages.{Package, AllPackages, names}
use package_index.Suite.Packages.Lookup.{names-append}
use package_index.Suite.Segments.{flatten}
use package_index.Suite.Run.Verify.{code_of}
use package_index.Suite.Phases.{Task, removes, indexes, verifies, Segments}
use package_index.Suite.Concurrent.{Fleet, segments_of}
use package_index.Suite.Concurrent.Messages.{wanted, IsCarried, Finds}
use package_index.Suite.Concurrent.Workers.{IsOn, Kept}

-- Does one of the segments have a package of that name?
unfoldable pub mentions : Segments → Name → Bool
mentions [] x = false
mentions (s ∷ ss) x = contains (names s) x || mentions ss x

pub mentions-append :
    (ss ts : Segments) (x : Name) → mentions (ss ++ ts) x ≡ (mentions ss x || mentions ts x)
unfolding mentions
mentions-append [] ts x = refl
mentions-append (s ∷ ss) ts x = ground (arith, mentions-append ss ts x)

pub mentions-flatten : (ss : Segments) (x : Name) → mentions ss x ≡ contains (names (flatten ss)) x
unfolding mentions flatten names contains
mentions-flatten [] x = refl
mentions-flatten (s ∷ ss) x =
    rw (names-append s (flatten ss), contains-append (names s) (names (flatten ss)) x)
      (ap (◌||◌ (contains (names s) x)) (mentions-flatten ss x))

-- What holds of all names of some packages holds of each of them, and the other way round.
pub All-of_names :
    (Q : Name → Type 0) (s : List Package)
    → ((x : Name) → contains (names s) x ≡ true → Q x)
    → All (λ p. Q p.name) s
unfolding names contains
All-of_names Q [] h = tt
All-of_names Q (p ∷ s) h =
    (h p.name (ground (arith, ==-refl p.name)), All-of_names Q s (λ x c. h x (ground arith)))

pub of_names-All :
    (Q : Name → Type 0) (s : List Package) (x : Name)
    → All (λ p. Q p.name) s
    → contains (names s) x ≡ true
    → Q x
unfolding names contains
of_names-All Q [] x h c = cc
of_names-All Q (p ∷ s) x h c = elim (Bool-cases (p.name == x)) [
  | inl same ↦ subst Q ((bytes_beq_iff p.name x).0 same) h.0
  | inr other ↦ of_names-All Q s x h.1 (rw other at c)
]

-- Each step that looks expects what the step in front of it is after, and the last one wants nothing
-- indexed.
abbrev pub Follows : Task → List Task → Type 0
Follows t [] = wanted t ≡ false
Follows t (removes ∷ ts) = Follows removes ts
Follows t (indexes ∷ ts) = Follows indexes ts
Follows t (verifies c ∷ ts) = (c ≡ code_of (wanted t)) × Follows (verifies c) ts

pub record IsSound {κ} {R : Type κ} (all : AllPackages) (segments : Segments) (f : Fleet Graph R)
    : Type 0 where
  pub alive : f.run.exit ≡ none
  pub ordered : IsOrdered f.server
  pub working : All (IsOn all f.task f.server) f.workers
  pub due : All (All (IsCarried all)) f.run.pending
  -- The goroutines of the step are for packages of the run.
  pub pending_known : (x : Name) → mentions f.run.pending x ≡ true → mentions segments x ≡ true
  pub running_known :
      (x : Name) → mentions (segments_of f.workers) x ≡ true → mentions segments x ≡ true
  -- A package that no goroutine is to deal with, or deals with, is as the step wants it.
  pub accounted :
      (x : Name)
      → mentions segments x ≡ true
      → mentions f.run.pending x ≡ false
      → mentions (segments_of f.workers) x ≡ false
      → has x f.server ≡ wanted f.task
  pub finds : (x : Name) → mentions segments x ≡ true → Finds f.task f.server x
  pub follows : Follows f.task f.run.todo

wanted-verifies : (c : ResponseCode) (b : Bool) → c ≡ code_of b → wanted (verifies c) ≡ b
wanted-verifies ok true e = refl
wanted-verifies ok false e = cc
wanted-verifies fail true e = cc
wanted-verifies fail false e = refl
wanted-verifies error true e = cc
wanted-verifies error false e = cc

pub Follows-Finds :
    (t u : Task) (ts : List Task) (g : Graph) (x : Name)
    → Follows t (u ∷ ts)
    → has x g ≡ wanted t
    → Finds u g x
Follows-Finds t removes ts g x h k = tt
Follows-Finds t indexes ts g x h k = tt
Follows-Finds t (verifies c) ts g x h k =
    let e = wanted-verifies c (wanted t) h.0 in (h.0 ∙ ap code_of (sym e), k ∙ sym e)

pub Follows-next : (t u : Task) (ts : List Task) → Follows t (u ∷ ts) → Follows u ts
Follows-next t removes ts h = h
Follows-next t indexes ts h = h
Follows-next t (verifies c) ts h = h.1

pub Finds-keeps : (t : Task) (g g' : Graph) (x : Name) → Kept t g g' → Finds t g x → Finds t g' x
Finds-keeps removes g g' x k h = tt
Finds-keeps indexes g g' x k h = tt
Finds-keeps (verifies c) g g' x k h = (h.0, k.keeps x h.1)
