-- ===== src/Base/Choice.antt =====
-- One element taken out of a list, as a scheduler picks one of the goroutines that run.
use Prim.Native.Nat.{ℕ, zero, suc}
use mathlib.Core.Path.{◌≡◌, refl, ap, subst, ◌∙◌}
use mathlib.Core.Option.{Option, none, some}
use mathlib.Core.List.{List, [], ◌∷◌, map}
use package_index.Base.Lists.{length}

module _ {ℓ} {A : Type ℓ} where
  abbrev pub behind : A → Option (A × List A) → Option (A × List A)
  behind c none = none
  behind c (some (d, ds)) = some (d, c ∷ ds)

  -- The element number `i`, and the others in their order.
  unfoldable pub bring : ℕ → List A → Option (A × List A)
  bring i [] = none
  bring zero (c ∷ cs) = some (c, cs)
  bring (suc i) (c ∷ cs) = behind c (bring i cs)

module _ {ℓ} {A : Type ℓ} where
  -- An element taken out of `n`.
  abbrev pub OneOf : ℕ → Option (A × List A) → Type 0
  OneOf n none = Unit
  OneOf n (some (c, rest)) = n ≡ suc (length rest)

  behind-OneOf : (c : A) (n : ℕ) (o : Option (A × List A)) → OneOf n o → OneOf (suc n) (behind c o)
  behind-OneOf c n none h = tt
  behind-OneOf c n (some (d, ds)) h = ap suc h

  pub bring-OneOf : (i : ℕ) (cs : List A) → OneOf (length cs) (bring i cs)
  unfolding bring
  bring-OneOf i [] = tt
  bring-OneOf zero (c ∷ cs) = refl
  bring-OneOf (suc i) (c ∷ cs) = behind-OneOf c (length cs) (bring i cs) (bring-OneOf i cs)

  pub length-bring :
      (i : ℕ) (cs : List A) (c : A) (rest : List A)
      → bring i cs ≡ some (c, rest)
      → length cs ≡ suc (length rest)
  length-bring i cs c rest e = subst (OneOf (length cs)) e (bring-OneOf i cs)

module _ {ℓ κ} {A : Type ℓ} {B : Type κ} (f : A → B) where
  abbrev pub mapped : Option (A × List A) → Option (B × List B)
  mapped none = none
  mapped (some (c, rest)) = some (f c, map f rest)

  behind-mapped : (c : A) (o : Option (A × List A)) → behind (f c) (mapped o) ≡ mapped (behind c o)
  behind-mapped c none = refl
  behind-mapped c (some (d, ds)) = refl

  pub bring-map : (i : ℕ) (cs : List A) → bring i (map f cs) ≡ mapped (bring i cs)
  unfolding bring
  bring-map i [] = refl
  bring-map zero (c ∷ cs) = refl
  bring-map (suc i) (c ∷ cs) = ap (behind (f c)) (bring-map i cs) ∙ behind-mapped c (bring i cs)
