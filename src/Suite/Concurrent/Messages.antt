-- ===== src/Suite/Concurrent/Messages.antt =====
-- What one message of a goroutine does to a server that keeps the protocol.
use package_index.Base.{
  ℕ, Bool, true, false, some, List, ◌≡◌, refl, ap, sym, ◌∙◌, All, length, Name, bytes_eq, arith,
  Bool-cases, inl, inr,
}
use package_index.Base.Maps.{has}
use package_index.Index.{range}
use package_index.Index.Graph.{
  Graph, IsOrdered, has_all, add_package, drop_package, is_needed, is_needed-dependents,
  erase-IsOrdered,
}
use package_index.Server.WireFormat.Grammar.{deps_of, deps_of-Distinct}
use package_index.Suite.Client.{ok, fail, error}
use package_index.Suite.Packages.{Package, AllPackages}
use package_index.Suite.Packages.Registry.{Within}
use package_index.Suite.WireFormat.{names_at}
use package_index.Suite.WireFormat.Answers.{IsNamed, make_index_message-parse}
use package_index.Suite.Run.{counts, outcome, is_code}
use package_index.Suite.Run.Passed.{counted, installed_lem}
use package_index.Suite.Run.Removal.{left_over, removed_lem, answer_remove}
use package_index.Suite.Run.Removal.Drops.{has-drop_package, has-dropped}
use package_index.Suite.Run.Steps.{has-add_package, has-added, index_package-answer}
use package_index.Suite.Run.Verify.{answer, code_of, verify_step}
use package_index.Suite.Phases.{Task, removes, indexes, verifies}
use package_index.Suite.Concurrent.{message, checked}

-- What a step is after: its packages in the index, or out of it.
abbrev pub wanted : Task → Bool
wanted removes = false
wanted indexes = true
wanted (verifies ok) = true
wanted (verifies fail) = false
wanted (verifies error) = false

-- The count behind a message.
abbrev pub scored : Task → ℕ → Bool → ℕ
scored removes n b = left_over n b
scored indexes n b = counted n b
scored (verifies c) n b = n

-- A package that the format can carry, with pointers into the registry.
abbrev pub IsCarried : AllPackages → Package → Type 0
IsCarried all p = IsNamed p × Within (length all) p

-- What a step that only looks has to find.
abbrev pub Finds : Task → Graph → Name → Type 0
Finds removes g x = Unit
Finds indexes g x = Unit
Finds (verifies c) g x = (c ≡ code_of (wanted (verifies c))) × (has x g ≡ wanted (verifies c))

-- Only the steps that change the index may have to try again.
abbrev pub IsSure : Task → Bool → Type 0
IsSure removes b = Unit
IsSure indexes b = Unit
IsSure (verifies c) b = b ≡ true

drop_package-IsOrdered : (k : Name) (g : Graph) → IsOrdered g → IsOrdered (drop_package k g).0
unfolding drop_package
drop_package-IsOrdered k g o = elim (Bool-cases (has k g)) [
  | inl there ↦ rw there (elim (Bool-cases (is_needed k g)) [
    | inl needed ↦ rw needed o
    | inr free ↦ rw free (erase-IsOrdered k g (ground (arith, is_needed-dependents k g)) o)
  ])
  | inr missing ↦ rw missing o
]

add_package-IsOrdered :
    (k : Name) (ns : List Name) (g : Graph)
    → IsOrdered g
    → IsOrdered (add_package k (range (deps_of ns)) g).0
unfolding add_package
add_package-IsOrdered k ns g o = elim (Bool-cases (has k g)) [
  | inl old ↦ rw old o
  | inr fresh ↦ rw fresh (elim (Bool-cases (has_all (range (deps_of ns)) g)) [
    | inl there ↦ rw there (fresh, there, deps_of-Distinct ns, o)
    | inr missing ↦ rw missing o
  ])
]

checked-code_of :
    (n : ℕ) (b : Bool) → checked n (outcome (is_code (code_of b) (some (code_of b)))) ≡ counts n
checked-code_of n true = refl
checked-code_of n false = refl

-- What the server has made of the message.
abbrev pub Whose : AllPackages → Task → Package → Graph → Graph → Bool → Type 0
Whose all removes p g after hoped =
    (after ≡ (drop_package p.name g).0) × (hoped ≡ (drop_package p.name g).1)
Whose all indexes p g after hoped =
    (ns : List Name) × (names_at all p.dependencies ≡ some ns)
    × (after ≡ (add_package p.name (range (deps_of ns)) g).0)
    × (hoped ≡ (add_package p.name (range (deps_of ns)) g).1)
Whose all (verifies c) p g after hoped = (after ≡ g) × (hoped ≡ true)

-- A message whose response is as hoped for, or not, and what it has done then.
pub record Heard {κ} {R : Type κ} (intn : ℕ → R → ℕ × R) (all : AllPackages) (chance : ℕ) (t : Task)
    (p : Package) (n : ℕ) (g : Graph) (r : R) : Type κ where
  pub after : Graph
  pub hoped : Bool
  pub says :
      message answer some (λ x. x) intn all chance t p n (g, r)
      ≡ ((after, r), counts (scored t n hoped))
  pub ordered : IsOrdered after
  pub keeps : (x : Name) → has x g ≡ wanted t → has x after ≡ wanted t
  pub means : hoped ≡ true → has p.name after ≡ wanted t
  pub sure : IsSure t hoped
  pub whose : Whose all t p g after hoped

module _ {κ} {R : Type κ} (intn : ℕ → R → ℕ × R) (all : AllPackages) (named : All IsNamed all)
    (chance : ℕ) where
  removes-Heard :
      (p : Package) (n : ℕ) (g : Graph) (r : R)
      → IsCarried all p
      → IsOrdered g
      → Heard intn all chance removes p n g r
  unfolding message
  removes-Heard p n g r carried o = record {
    after = (drop_package p.name g).0;
    hoped = (drop_package p.name g).1;
    says = rw (answer_remove p g carried.0) (
        ap (λ m. ((m.0, r), m.1))
          (removed_lem n (drop_package p.name g).0 (drop_package p.name g).1));
    ordered = drop_package-IsOrdered p.name g o;
    keeps = λ x h. has-drop_package x p.name g h;
    means = has-dropped p.name g o;
    sure = tt;
    whose = (refl, refl);
  }

  indexes-Heard :
      (p : Package) (n : ℕ) (g : Graph) (r : R)
      → IsCarried all p
      → IsOrdered g
      → Heard intn all chance indexes p n g r
  unfolding message
  indexes-Heard p n g r carried o =
      let (ns, msg, at, made, reads) = make_index_message-parse all p named carried.0 carried.1 in
      let ds = range (deps_of ns) in
      record {
        after = (add_package p.name ds g).0;
        hoped = (add_package p.name ds g).1;
        says =
            rw
              (
                index_package-answer all p g ns named carried.0 carried.1 at,
                installed_lem n (add_package p.name ds g).1,
              )
              refl;
        ordered = add_package-IsOrdered p.name ns g o;
        keeps = λ x h. has-add_package x p.name ds g h;
        means = has-added p.name ds g;
        sure = tt;
        whose = (ns, at, refl, refl);
      }

  verifies-Heard :
      (b : Bool) (p : Package) (n : ℕ) (g : Graph) (r : R)
      → IsCarried all p
      → IsOrdered g
      → has p.name g ≡ b
      → wanted (verifies (code_of b)) ≡ b
      → Heard intn all chance (verifies (code_of b)) p n g r
  unfolding message
  verifies-Heard b p n g r carried o h k = record {
    after = g;
    hoped = true;
    says = rw (verify_step b b p g carried.0 h) (ap (λ o. ((g, r), o)) (checked-code_of n b));
    ordered = o;
    keeps = λ x e. e;
    means = λ e. h ∙ sym k;
    sure = refl;
    whose = (refl, refl);
  }

  pub message-Heard :
      (t : Task) (p : Package) (n : ℕ) (g : Graph) (r : R)
      → IsCarried all p
      → IsOrdered g
      → Finds t g p.name
      → Heard intn all chance t p n g r
  message-Heard removes p n g r carried o finds = removes-Heard p n g r carried o
  message-Heard indexes p n g r carried o finds = indexes-Heard p n g r carried o
  message-Heard (verifies ok) p n g r carried o finds =
      verifies-Heard true p n g r carried o finds.1 refl
  message-Heard (verifies fail) p n g r carried o finds =
      verifies-Heard false p n g r carried o finds.1 refl
  message-Heard (verifies error) p n g r carried o finds = cc
