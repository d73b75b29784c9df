-- ===== src/Tests/Running.antt =====
-- The loops of go/src/test-suite/test_run.go against a server that keeps the protocol.
use package_index.Base.{
  ℕ, suc, true, false, none, some, subst, bytes_beq_iff, ◌<◌, [], ◌∷◌, ◌++◌, ◌≡◌, refl, arith,
  Bytes, Name, ◌==◌, bytes_eq, bytes_beq, nat_eq, if◌then◌else◌,
}
use package_index.Base.Text.{codes}
use package_index.Base.Maps.{has}
use package_index.Base.Sets.{contains}
use package_index.Index.Graph.{Graph, has_all}
use package_index.Suite.Client.{ok, fail, error, response_code, received, send}
use package_index.Suite.Packages.{AllPackages, names, trim_right, keep_unless}
use package_index.Suite.WireFormat.{get_elem?, names_at}
use package_index.Suite.Run.Verify.{answer}
use package_index.Suite.Run.Passed.{IsReady, AllHave}
use package_index.Suite.Run.Removal.{IsRemovable, bruteforce_removes_all_packages-ends}
use package_index.Suite.Run.Rounds.{bruteforce_indexes_packages-ends}
use package_index.Suite.Run.{fine, bruteforce_indexes_packages, bruteforce_removes_all_packages}

test_responses :
    (response_code (codes "OK\n") ≡ some ok)
    × (response_code (codes "FAIL\n") ≡ some fail)
    × (response_code (codes "ERROR\n") ≡ some error)
    × (response_code (codes "banana\n") ≡ none)
unfolding response_code trim_right keep_unless bytes_beq
test_responses = (refl, refl, refl, refl)

-- A connection that echoes what is sent.
test_send :
    send (λ s. s) (λ (s m : Bytes). (s ++ m, true)) (λ s. ([], some s)) [] (codes "OK")
    ≡ ([], some ok)
unfolding send received response_code trim_right keep_unless bytes_beq
test_send = refl

-- The one that needs the other comes first.
abbrev pub pair : AllPackages
pair =
    record { name = codes "b"; dependencies = 1 ∷ [] }
    ∷ record { name = codes "a"; dependencies = [] }
    ∷ []

abbrev pub rank : Name → ℕ
rank n = if n == codes "b" then 1 else 0

abbrev pub always_zero : ℕ → ℕ → ℕ × ℕ
always_zero n r = (0, suc r)

pub b_IsReady : IsReady pair pair rank (record { name = codes "b"; dependencies = 1 ∷ [] })
unfolding names_at get_elem? names contains bytes_beq
b_IsReady = record {
  named = (λ e. ground (arith, e), (refl, tt));
  within = (omega arith, tt);
  deps = codes "a" ∷ [];
  deps_at = refl;
  ranked = ((omega arith, refl), tt);
}

pub a_IsReady : IsReady pair pair rank (record { name = codes "a"; dependencies = [] })
unfolding names_at
a_IsReady = record {
  named = (λ e. ground (arith, e), (refl, tt));
  within = tt;
  deps = [];
  deps_at = refl;
  ranked = tt;
}

bruteforce_indexes_packages-ends_example :
    (g' : Graph) × (r' : ℕ) × (bruteforce_indexes_packages answer always_zero 2 pair 5 pair ([], 0)
      ≡ some ((g', r'), fine))
    × AllHave true pair g'
unfolding bytes_beq
bruteforce_indexes_packages-ends_example =
    bruteforce_indexes_packages-ends always_zero (λ n r h. h) pair
      ((λ e. ground (arith, e), (refl, tt)), ((λ e. ground (arith, e), (refl, tt)), tt)) 5 pair rank
      2 (b_IsReady, (a_IsReady, tt)) (omega arith, (omega arith, tt)) [] 0

abbrev pub only_a : Graph
only_a = (codes "a", []) ∷ []

abbrev pub both : Graph
both = (codes "b", codes "a" ∷ []) ∷ (codes "a", []) ∷ []

-- For removals what depends on a package comes first.
abbrev pub removal_rank : Name → ℕ
removal_rank n = if n == codes "a" then 1 else 0

contains_a : (d : Name) → contains (codes "a" ∷ []) d ≡ true → codes "a" ≡ d
unfolding contains
contains_a d h = ground (arith, bytes_beq_iff (codes "a") d)

pub both-IsRemovable : IsRemovable pair removal_rank both
unfolding names contains bytes_beq has has_all
both-IsRemovable = record {
  ordered = (refl, refl, (refl, tt), (refl, refl, tt, tt));
  held = (
    (λ d c i. (refl, subst (λ y. 0 < removal_rank y) (contains_a d c) (omega arith))),
    ((λ d c i. cc), tt),
  );
}

bruteforce_removes_all_packages-ends_example :
    (g' : Graph) × (bruteforce_removes_all_packages answer 2 pair both ≡ some (g', fine))
    × AllHave false pair g'
unfolding bytes_beq
bruteforce_removes_all_packages-ends_example =
    bruteforce_removes_all_packages-ends pair removal_rank 2
      ((λ e. ground (arith, e), (refl, tt)), ((λ e. ground (arith, e), (refl, tt)), tt))
      (omega arith, (omega arith, tt)) both both-IsRemovable
