-- ===== src/Index/Order.antt =====
-- Go visits a map's keys in an order of its own choice: no answer depends on that choice.
use package_index.Base.{
  suc, ◌≤◌, Bool, true, List, [], ◌∷◌, ◌≡◌, ◌∙◌, sym, refl, ap, Name, length, bytes_eq, ==-refl,
  arith, All, Bool-cases, inl, inr, ◌==◌,
}
use package_index.Base.Int64.{int64_bound}
use package_index.Base.Sets.{contains, SameKeys}
use package_index.Base.Maps.{has, erase}
use package_index.Index.Graph.{
  Graph, has_all, is_needed, add_package, drop_package, has-of_contains,
}
use package_index.Index.Refinement.{IsCall, spec_call, spec_history, history-refines}
use package_index.Index.{range, Call, indexes, removes, queries, new_index, history}

-- The same calls, but for the order in which their sets are visited.
abbrev pub SameCall : Call → Call → Type 0
SameCall (indexes pkg deps) (indexes pkg' deps') =
    (pkg ≡ pkg') × SameKeys (range deps) (range deps')
SameCall (removes pkg) (removes pkg') = pkg ≡ pkg'
SameCall (queries pkg) (queries pkg') = pkg ≡ pkg'
SameCall _ _ = ⊥

abbrev pub SameCalls : List Call → List Call → Type 0
SameCalls [] [] = Unit
SameCalls (c ∷ cs) (d ∷ ds) = SameCall c d × SameCalls cs ds
SameCalls _ _ = ⊥

abbrev SameGraph : Graph → Graph → Type 0
SameGraph [] [] = Unit
SameGraph ((k, ds) ∷ g) ((k', ds') ∷ g') = (k ≡ k') × SameKeys ds ds' × SameGraph g g'
SameGraph _ _ = ⊥

has-same : (d : Name) (g h : Graph) → SameGraph g h → has d g ≡ has d h
unfolding has
has-same d [] [] s = refl
has-same d [] (x ∷ h) s = absurd s
has-same d (x ∷ g) [] s = absurd s
has-same d ((k, ds) ∷ g) ((k', ds') ∷ h) s = rw (s.0, has-same d g h s.2)

is_needed-same : (d : Name) (g h : Graph) → SameGraph g h → is_needed d g ≡ is_needed d h
unfolding is_needed
is_needed-same d [] [] s = refl
is_needed-same d [] (x ∷ h) s = absurd s
is_needed-same d (x ∷ g) [] s = absurd s
is_needed-same d ((k, ds) ∷ g) ((k', ds') ∷ h) s = rw (s.1 d, is_needed-same d g h s.2)

erase-same : (d : Name) (g h : Graph) → SameGraph g h → SameGraph (erase d g) (erase d h)
unfolding erase
erase-same d [] [] s = tt
erase-same d [] (x ∷ h) s = absurd s
erase-same d (x ∷ g) [] s = absurd s
erase-same d ((k, ds) ∷ g) ((k', ds') ∷ h) s = rw s.0 (elim (Bool-cases (k' == d)) [
  | inl hit ↦ rw hit s.2
  | inr miss ↦ rw miss (refl, s.1, erase-same d g h s.2)
])

has_all-intro :
    (ds : List Name) (g : Graph)
    → ((d : Name) → contains ds d ≡ true → has d g ≡ true)
    → has_all ds g ≡ true
unfolding has_all contains
has_all-intro [] g f = refl
has_all-intro (d ∷ ds) g f =
    ground (arith, f d, ==-refl d, has_all-intro ds g (λ x c. f x (ground (arith, c))))

has_all-keys :
    (ds es : List Name) (g h : Graph)
    → SameKeys ds es
    → SameGraph g h
    → has_all ds g ≡ true
    → has_all es h ≡ true
has_all-keys ds es g h k s a =
    has_all-intro es h (λ d c. sym (has-same d g h s) ∙ has-of_contains ds d g a (k d ∙ c))

SameGraph-sym : (g h : Graph) → SameGraph g h → SameGraph h g
SameGraph-sym [] [] s = tt
SameGraph-sym [] (x ∷ h) s = s
SameGraph-sym (x ∷ g) [] s = s
SameGraph-sym ((k, ds) ∷ g) ((k', ds') ∷ h) s = (sym s.0, λ d. sym (s.1 d), SameGraph-sym g h s.2)

has_all-same :
    (ds es : List Name) (g h : Graph) → SameKeys ds es → SameGraph g h → has_all ds g ≡ has_all es h
has_all-same ds es g h k s = ground (
  arith,
  has_all-keys ds es g h k s,
  has_all-keys es ds h g (λ d. sym (k d)) (SameGraph-sym g h s),
)

abbrev SameOutcome : Graph × Bool → Graph × Bool → Type 0
SameOutcome r q = SameGraph r.0 q.0 × (r.1 ≡ q.1)

spec_call-same :
    (c d : Call) (g h : Graph)
    → SameCall c d
    → SameGraph g h
    → SameOutcome (spec_call c g) (spec_call d h)
unfolding spec_call add_package drop_package
spec_call-same (indexes pkg deps) (indexes pkg' deps') g h (p, k) s =
    rw (p, has-same pkg' g h s, has_all-same (range deps) (range deps') g h k s)
      (elim (Bool-cases (has pkg' h)) [
        | inl old ↦ rw old (s, refl)
        | inr fresh ↦ rw fresh (elim (Bool-cases (has_all (range deps') h)) [
          | inl there ↦ rw there ((refl, k, s), refl)
          | inr missing ↦ rw missing (s, refl)
        ])
      ])
spec_call-same (removes pkg) (removes pkg') g h p s =
    rw (p, has-same pkg' g h s, is_needed-same pkg' g h s)
      (elim (Bool-cases (has pkg' h)) [
        | inl old ↦ rw old (elim (Bool-cases (is_needed pkg' h)) [
          | inl needed ↦ rw needed (s, refl)
          | inr free ↦ rw free (erase-same pkg' g h s, refl)
        ])
        | inr fresh ↦ rw fresh (s, refl)
      ])
spec_call-same (queries pkg) (queries pkg') g h p s = (s, rw p (has-same pkg' g h s))
spec_call-same (indexes _ _) (removes _) g h p s = absurd p
spec_call-same (indexes _ _) (queries _) g h p s = absurd p
spec_call-same (removes _) (indexes _ _) g h p s = absurd p
spec_call-same (removes _) (queries _) g h p s = absurd p
spec_call-same (queries _) (indexes _ _) g h p s = absurd p
spec_call-same (queries _) (removes _) g h p s = absurd p

spec_history-same :
    (cs ds : List Call) (g h : Graph)
    → SameCalls cs ds
    → SameGraph g h
    → (spec_history cs g).1 ≡ (spec_history ds h).1
unfolding spec_history
spec_history-same [] [] g h c s = refl
spec_history-same [] (d ∷ ds) g h c s = absurd c
spec_history-same (c ∷ cs) [] g h p s = absurd p
spec_history-same (c ∷ cs) (d ∷ ds) g h p s =
    let one = spec_call-same c d g h p.0 s in
    let rest = spec_history-same cs ds (spec_call c g).0 (spec_call d h).0 p.1 one.0 in
    cc (one.1, rest)

length-SameCalls : (cs ds : List Call) → SameCalls cs ds → length cs ≡ length ds
length-SameCalls [] [] s = refl
length-SameCalls [] (d ∷ ds) s = absurd s
length-SameCalls (c ∷ cs) [] s = absurd s
length-SameCalls (c ∷ cs) (d ∷ ds) s = ap suc (length-SameCalls cs ds s.1)

-- Two histories of at most 2 ^ 63 calls, with no key twice in their sets, that differ only in the
-- order in which sets of dependencies are visited get the same answers from a new index.
pub history-order :
    (cs ds : List Call)
    → length cs ≤ int64_bound
    → All IsCall cs
    → All IsCall ds
    → SameCalls cs ds
    → (history cs new_index).1 ≡ (history ds new_index).1
history-order cs ds small u w s =
    ap (λ (r : Graph × List Bool). r.1) (history-refines cs small u)
    ∙ spec_history-same cs ds [] [] s tt
    ∙ sym (
        ap (λ (r : Graph × List Bool). r.1)
          (history-refines ds (omega (arith, length-SameCalls cs ds s)) w))
