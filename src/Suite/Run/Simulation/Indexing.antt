-- ===== src/Suite/Run/Simulation/Indexing.antt =====
-- The loop that indexes ends the same on two connections on which a client hears the same.
use package_index.Base.{
  ℕ, zero, suc, ◌+◌, ◌*◌, ◌&&◌, Option, none, some, List, [], ◌∷◌, ◌≡◌, ◌∙◌, refl, ap, subst, All,
  length, Bytes, ltb, arith, Bool-cases, inl, inr,
}
use package_index.Base.Int64.{is_pos}
use package_index.Suite.Client.{ResponseCode, ok, error}
use package_index.Suite.Packages.{Package, AllPackages}
use package_index.Suite.WireFormat.{choices, make_index_message, make_broken_message}
use package_index.Suite.Run.Simulation.{send_for-Same, Same}
use package_index.Suite.Run.{
  Outcome, fine, returns_error, panics, Round, counts, stops, installed, send_for, index_package,
  should_something_bad_happen, send_broken_message, unlucky, after_unlucky, index_step, index_round,
  index_rounds, bruteforce_indexes_packages,
}

-- `n` more for some rounds over a list, two for each element of a round.
unfoldable pub twice_beside {ℓ} : {A : Type ℓ} → List A → ℕ → ℕ
twice_beside [] n = n
twice_beside (x ∷ xs) n = suc (suc (twice_beside xs n))

unfoldable pub twice_behind {ℓ} : {A : Type ℓ} → ℕ → List A → ℕ → ℕ
twice_behind zero xs n = n
twice_behind (suc rounds) xs n = twice_beside xs (twice_behind rounds xs n)

pub twice_beside-length {ℓ} :
    {A : Type ℓ} (xs : List A) (n : ℕ) → twice_beside xs n ≡ 2 * length xs + n
unfolding twice_beside
twice_beside-length [] n = omega arith
twice_beside-length (x ∷ xs) n = omega (arith, twice_beside-length xs n)

pub twice_behind-length {ℓ} :
    {A : Type ℓ} (rounds : ℕ) (xs : List A) (n : ℕ)
    → twice_behind rounds xs n ≡ 2 * (rounds * length xs) + n
unfolding twice_behind
twice_behind-length zero xs n = omega arith
twice_behind-length (suc rounds) xs n =
    omega
      (arith, twice_beside-length xs (twice_behind rounds xs n), twice_behind-length rounds xs n)

-- A message that could be made can be sent.
abbrev pub IfMade : (Bytes → Type 0) → Option Bytes → Type 0
IfMade Sendable none = Unit
IfMade Sendable (some msg) = Sendable msg

-- The connection's state in front of all else.
abbrev aside {ℓ κ μ} : {S : Type ℓ} {R : Type κ} {A : Type μ} → (S × R) × A → S × (R × A)
aside ((s, r), a) = (s, (r, a))

module _ {ℓ κ μ ρ} {S : Type ℓ} {T : Type κ} (send : S → Bytes → S × Option ResponseCode)
    (send' : T → Bytes → T × Option ResponseCode) (Alike : ℕ → S → T → Type μ)
    (Sendable : Bytes → Type 0) (less : (n : ℕ) (s : S) (t : T) → Alike (suc n) s t → Alike n s t)
    (alike : (n : ℕ) (s : S) (t : T) (msg : Bytes)
      → Sendable msg
      → Alike (suc n) s t
      → ((send s msg).1 ≡ (send' t msg).1) × Alike n (send s msg).0 (send' t msg).0)
    {R : Type ρ} (intn : ℕ → R → ℕ × R) where
  abbrev Like {σ} : {A : Type σ} → ℕ → (S × R) × A → (T × R) × A → Type (μ ⊔ ρ ⊔ σ)
  Like n x y = Same send send' Alike Sendable less alike n (aside x) (aside y)

  made-Same :
      (n : ℕ) (expected : ResponseCode) (o : Option Bytes) (s : S) (t : T)
      → IfMade Sendable o
      → Alike (suc n) s t
      → Same send send' Alike Sendable less alike n
          (send_for send expected o s)
          (send_for send' expected o t)
  unfolding send_for
  made-Same n expected none s t m h = (refl, less n s t h)
  made-Same n expected (some msg) s t m h =
      send_for-Same send send' Alike Sendable less alike n expected msg s t m h

  module _ (broken : (kind choice : ℕ) → IfMade Sendable (make_broken_message kind choice)) where
    send_broken_message-Like :
        (n : ℕ) (s : S) (t : T) (r : R)
        → Alike (suc n) s t
        → Like n (send_broken_message send intn (s, r)) (send_broken_message send' intn (t, r))
    unfolding send_broken_message
    send_broken_message-Like n s t r h =
        let kind = (intn 10 r).0 in
        let pick = intn (choices kind) (intn 10 r).1 in
        let (e, next) =
          made-Same n error (make_broken_message kind pick.0) s t (broken kind pick.0) h in
        (ap (λ (o : Outcome). (pick.1, o)) e, next)

    unlucky-Like :
        (n chance : ℕ) (s : S) (t : T) (r : R)
        → Alike (suc n) s t
        → Like n (unlucky send intn chance (s, r)) (unlucky send' intn chance (t, r))
    unfolding unlucky should_something_bad_happen
    unlucky-Like n chance s t r h = elim (Bool-cases (is_pos chance && ltb (intn 100 r).0 chance)) [
      | inl bad ↦ rw bad (send_broken_message-Like n s t (intn 100 r).1 h)
      | inr lucky ↦ rw lucky (refl, less n s t h)
    ]

    module _ (all : AllPackages) (chance : ℕ) where
      after_unlucky-Like :
          (p : Package) (k n : ℕ) (s : S) (t : T) (x : R × Outcome)
          → IfMade Sendable (make_index_message all p)
          → Alike (suc n) s t
          → Like n
              (after_unlucky send intn all p k ((s, x.0), x.1))
              (after_unlucky send' intn all p k ((t, x.0), x.1))
      unfolding index_package
      after_unlucky-Like p k n s t (r, fine) m h =
          let (e, next) = made-Same n ok (make_index_message all p) s t m h in
          (ap (λ (o : Outcome). (r, installed k o)) e, next)
      after_unlucky-Like p k n s t (r, returns_error) m h = (refl, less n s t h)
      after_unlucky-Like p k n s t (r, panics) m h = (refl, less n s t h)

      index_step-Like :
          (p : Package) (k n : ℕ) (s : S) (t : T) (r : R)
          → IfMade Sendable (make_index_message all p)
          → Alike (suc (suc n)) s t
          → Like n
              (index_step send intn all chance p k (s, r))
              (index_step send' intn all chance p k (t, r))
      unfolding index_step
      index_step-Like p k n s t r m h =
          let (e, next) = unlucky-Like (suc n) chance s t r h in
          let a = unlucky send intn chance (s, r) in
          let b = unlucky send' intn chance (t, r) in
          subst
            (λ x.
              Like n (after_unlucky send intn all p k a)
                (after_unlucky send' intn all p k ((b.0.0, x.0), x.1)))
            e (after_unlucky-Like p k n a.0.0 b.0.0 (a.0.1, a.1) m next)

      less_twice {σ} :
          {A : Type σ} (xs : List A) (n : ℕ) (s : S) (t : T)
          → Alike (twice_beside xs n) s t
          → Alike n s t
      unfolding twice_beside
      less_twice [] n s t h = h
      less_twice (x ∷ xs) n s t h =
          less_twice xs n s t (less (twice_beside xs n) s t (less (suc (twice_beside xs n)) s t h))

      index_round-Like :
          (ps : List Package) (n : ℕ) (s : S) (t : T) (x : R × Round)
          → All (λ p. IfMade Sendable (make_index_message all p)) ps
          → Alike (twice_beside ps n) s t
          → Like n
              (index_round send intn all chance ps ((s, x.0), x.1))
              (index_round send' intn all chance ps ((t, x.0), x.1))
      unfolding index_round twice_beside
      index_round-Like [] n s t x m h = (refl, h)
      index_round-Like (p ∷ ps) n s t (r, stops o) m h = (refl, less_twice (p ∷ ps) n s t h)
      index_round-Like (p ∷ ps) n s t (r, counts k) m h =
          let (e, next) = index_step-Like p k (twice_beside ps n) s t r m.0 h in
          let a = index_step send intn all chance p k (s, r) in
          let b = index_step send' intn all chance p k (t, r) in
          subst
            (λ x.
              Like n (index_round send intn all chance ps a)
                (index_round send' intn all chance ps ((b.0.0, x.0), x.1)))
            e (index_round-Like ps n a.0.0 b.0.0 (a.0.1, a.1) m.1 next)

      less_twice_behind {σ} :
          {A : Type σ} (rounds : ℕ) (xs : List A) (n : ℕ) (s : S) (t : T)
          → Alike (twice_behind rounds xs n) s t
          → Alike n s t
      unfolding twice_behind
      less_twice_behind zero xs n s t h = h
      less_twice_behind (suc rounds) xs n s t h =
          less_twice_behind rounds xs n s t (less_twice xs (twice_behind rounds xs n) s t h)

      -- How the loop ends on the one connection says how it ends on the other.
      abbrev EndsLike : ℕ → Option ((S × R) × Outcome) → (T × R) × Outcome → Type (ℓ ⊔ μ ⊔ ρ)
      EndsLike n x b = (a : (S × R) × Outcome) × (x ≡ some a) × Like n a b

      some-EndsLike :
          (n : ℕ) (s : S) (t : T) (r : R) (o : Outcome) (b : (T × R) × Outcome)
          → Alike n s t
          → some ((t, r), o) ≡ some b
          → EndsLike n (some ((s, r), o)) b
      some-EndsLike n s t r o b h e =
          let ended : ((t, r), o) ≡ b = cc in
          (((s, r), o), refl, subst (Like n ((s, r), o)) ended (refl, h))

      index_rounds-EndsLike :
          (ps : List Package) (fuel n : ℕ) (s : S) (t : T) (x : R × Round) (b : (T × R) × Outcome)
          → All (λ p. IfMade Sendable (make_index_message all p)) ps
          → Alike (twice_behind fuel ps n) s t
          → index_rounds send' intn fuel all chance ps ((t, x.0), x.1) ≡ some b
          → EndsLike n (index_rounds send intn fuel all chance ps ((s, x.0), x.1)) b
      unfolding index_rounds twice_behind
      index_rounds-EndsLike ps zero n s t (r, stops o) b m h e = some-EndsLike n s t r o b h e
      index_rounds-EndsLike ps (suc fuel) n s t (r, stops o) b m h e =
          some-EndsLike n s t r o b (less_twice_behind (suc fuel) ps n s t h) e
      index_rounds-EndsLike ps zero n s t (r, counts k) b m h e =
          elim (Bool-cases (ltb k (length ps))) [
            | inl left ↦ absurd (ground (arith, e, left))
            | inr done ↦ rw done (some-EndsLike n s t r fine b h (rw done at e))
          ]
      index_rounds-EndsLike ps (suc fuel) n s t (r, counts k) b m h e =
          elim (Bool-cases (ltb k (length ps))) [
            | inl left ↦
                let (same, next) =
                  index_round-Like ps (twice_behind fuel ps n) s t (r, counts 0) m h in
                let a' = index_round send intn all chance ps ((s, r), counts 0) in
                let b' = index_round send' intn all chance ps ((t, r), counts 0) in
                rw left (
                  index_rounds-EndsLike ps fuel n a'.0.0 b'.0.0 (a'.0.1, a'.1) b m next
                    (ap
                        (λ (x : R × Round).
                          index_rounds send' intn fuel all chance ps ((b'.0.0, x.0), x.1))
                        same
                      ∙ (rw left at e)))
            | inr done ↦ rw done (
                some-EndsLike n s t r fine b (less_twice_behind (suc fuel) ps n s t h)
                  (rw done at e))
          ]

      pub bruteforce_indexes_packages-EndsLike :
          (ps : List Package) (fuel n : ℕ) (s : S) (t : T) (r : R) (b : (T × R) × Outcome)
          → All (λ p. IfMade Sendable (make_index_message all p)) ps
          → Alike (twice_behind fuel ps n) s t
          → bruteforce_indexes_packages send' intn fuel all chance ps (t, r) ≡ some b
          → EndsLike n (bruteforce_indexes_packages send intn fuel all chance ps (s, r)) b
      unfolding bruteforce_indexes_packages
      bruteforce_indexes_packages-EndsLike ps fuel n s t r b m h e =
          index_rounds-EndsLike ps fuel n s t (r, counts 0) b m h e
