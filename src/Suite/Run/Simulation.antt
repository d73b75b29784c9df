-- ===== src/Suite/Run/Simulation.antt =====
-- Two connections on which a client hears the same: its loops end the same on both.
pub mod Indexing
use package_index.Base.{
  ℕ, zero, suc, ◌+◌, ◌*◌, Option, none, some, List, [], ◌∷◌, ◌≡◌, ◌∙◌, refl, ap, subst, All, length,
  Bytes, ltb, arith, Bool-cases, inl, inr,
}
use package_index.Suite.Client.{ResponseCode, ok, fail, error}
use package_index.Suite.Packages.{Package}
use package_index.Suite.WireFormat.{make_remove_message, make_query_message}
use package_index.Suite.Run.{
  Outcome, fine, returns_error, panics, outcome, is_code, Round, counts, stops, removed,
  remove_round, remove_rounds, send_for, bruteforce_removes_all_packages, verify_all_packages,
}

-- `n` more for a list: one for each element.
unfoldable pub beside {ℓ} : {A : Type ℓ} → List A → ℕ → ℕ
beside [] n = n
beside (x ∷ xs) n = suc (beside xs n)

-- `n` more for some rounds over a list.
unfoldable pub behind_rounds {ℓ} : {A : Type ℓ} → ℕ → List A → ℕ → ℕ
behind_rounds zero xs n = n
behind_rounds (suc rounds) xs n = beside xs (behind_rounds rounds xs n)

pub beside-length {ℓ} : {A : Type ℓ} (xs : List A) (n : ℕ) → beside xs n ≡ length xs + n
unfolding beside
beside-length [] n = omega arith
beside-length (x ∷ xs) n = omega (arith, beside-length xs n)

pub behind_rounds-length {ℓ} :
    {A : Type ℓ} (rounds : ℕ) (xs : List A) (n : ℕ)
    → behind_rounds rounds xs n ≡ rounds * length xs + n
unfolding behind_rounds
behind_rounds-length zero xs n = omega arith
behind_rounds-length (suc rounds) xs n =
    omega (arith, beside-length xs (behind_rounds rounds xs n), behind_rounds-length rounds xs n)

-- `Alike n s t`: the connections in the states `s` and `t` are alike for `n` more messages.
module _ {ℓ κ μ ν} {S : Type ℓ} {T : Type κ} (send : S → Bytes → S × Option ResponseCode)
    (send' : T → Bytes → T × Option ResponseCode) (Alike : ℕ → S → T → Type μ)
    (Sendable : Bytes → Type ν) (less : (n : ℕ) (s : S) (t : T) → Alike (suc n) s t → Alike n s t)
    (alike : (n : ℕ) (s : S) (t : T) (msg : Bytes)
      → Sendable msg
      → Alike (suc n) s t
      → ((send s msg).1 ≡ (send' t msg).1) × Alike n (send s msg).0 (send' t msg).0) where
  abbrev pub Same {ρ} : {A : Type ρ} → ℕ → S × A → T × A → Type (μ ⊔ ρ)
  Same n (s, a) (t, b) = (a ≡ b) × Alike n s t

  less_beside {ρ} :
      {A : Type ρ} (xs : List A) (n : ℕ) (s : S) (t : T) → Alike (beside xs n) s t → Alike n s t
  unfolding beside
  less_beside [] n s t h = h
  less_beside (x ∷ xs) n s t h = less_beside xs n s t (less (beside xs n) s t h)

  pub send_for-Same :
      (n : ℕ) (expected : ResponseCode) (msg : Bytes) (s : S) (t : T)
      → Sendable msg
      → Alike (suc n) s t
      → Same n (send_for send expected (some msg) s) (send_for send' expected (some msg) t)
  unfolding send_for
  send_for-Same n expected msg s t m h =
      let (e, next) = alike n s t msg m h in (ap (λ c. outcome (is_code expected c)) e, next)

  pub verify_all_packages-Same :
      (expected : ResponseCode) (ps : List Package) (n : ℕ) (s : S) (t : T) (o : Outcome)
      → All (λ p. Sendable (make_query_message p)) ps
      → Alike (beside ps n) s t
      → Same n
          (verify_all_packages send expected ps (s, o))
          (verify_all_packages send' expected ps (t, o))
  unfolding verify_all_packages beside
  verify_all_packages-Same expected [] n s t o m h = (refl, h)
  verify_all_packages-Same expected (p ∷ ps) n s t fine m h =
      let (e, next) = send_for-Same (beside ps n) expected (make_query_message p) s t m.0 h in
      let a = send_for send expected (some (make_query_message p)) s in
      let b = send_for send' expected (some (make_query_message p)) t in
      subst
        (λ o.
          Same n (verify_all_packages send expected ps a)
            (verify_all_packages send' expected ps (b.0, o)))
        e (verify_all_packages-Same expected ps n a.0 b.0 a.1 m.1 next)
  verify_all_packages-Same expected (p ∷ ps) n s t returns_error m h =
      (refl, less_beside (p ∷ ps) n s t h)
  verify_all_packages-Same expected (p ∷ ps) n s t panics m h = (refl, less_beside (p ∷ ps) n s t h)

  removed-Same :
      (n k : ℕ) (a : S × Option ResponseCode) (b : T × Option ResponseCode)
      → a.1 ≡ b.1
      → Alike n a.0 b.0
      → Same n (removed send k a) (removed send' k b)
  removed-Same n k (s, c) (t, d) e h =
      subst (λ d. Same n (removed send k (s, c)) (removed send' k (t, d))) e (in_case c)
    where
      in_case : (c : Option ResponseCode) → Same n (removed send k (s, c)) (removed send' k (t, c))
      in_case none = (refl, h)
      in_case (some ok) = (refl, h)
      in_case (some fail) = (refl, h)
      in_case (some error) = (refl, h)

  remove_round-Same :
      (ps : List Package) (n : ℕ) (s : S) (t : T) (o : Round)
      → All (λ p. Sendable (make_remove_message p)) ps
      → Alike (beside ps n) s t
      → Same n (remove_round send ps (s, o)) (remove_round send' ps (t, o))
  unfolding remove_round beside
  remove_round-Same [] n s t o m h = (refl, h)
  remove_round-Same (p ∷ ps) n s t (stops o) m h = (refl, less_beside (p ∷ ps) n s t h)
  remove_round-Same (p ∷ ps) n s t (counts k) m h =
      let (e, next) = alike (beside ps n) s t (make_remove_message p) m.0 h in
      let a = removed send k (send s (make_remove_message p)) in
      let b = removed send' k (send' t (make_remove_message p)) in
      let (same, now) =
        removed-Same (beside ps n) k (send s (make_remove_message p))
          (send' t (make_remove_message p)) e next in
      subst (λ o. Same n (remove_round send ps a) (remove_round send' ps (b.0, o))) same
        (remove_round-Same ps n a.0 b.0 a.1 m.1 now)

  less_behind {ρ} :
      {A : Type ρ} (rounds : ℕ) (xs : List A) (n : ℕ) (s : S) (t : T)
      → Alike (behind_rounds rounds xs n) s t
      → Alike n s t
  unfolding behind_rounds
  less_behind zero xs n s t h = h
  less_behind (suc rounds) xs n s t h =
      less_behind rounds xs n s t (less_beside xs (behind_rounds rounds xs n) s t h)

  -- How a loop ends on the one connection says how it ends on the other.
  abbrev pub Ends : ℕ → Option (S × Outcome) → T × Outcome → Type (ℓ ⊔ μ)
  Ends n r b = (a : S × Outcome) × (r ≡ some a) × Same n a b

  some-Ends :
      (n : ℕ) (s : S) (t : T) (o : Outcome) (b : T × Outcome)
      → Alike n s t
      → some (t, o) ≡ some b
      → Ends n (some (s, o)) b
  some-Ends n s t o b h e =
      let ended : (t, o) ≡ b = cc in ((s, o), refl, subst (Same n (s, o)) ended (refl, h))

  remove_rounds-Ends :
      (ps : List Package) (fuel n : ℕ) (s : S) (t : T) (o : Round) (b : T × Outcome)
      → All (λ p. Sendable (make_remove_message p)) ps
      → Alike (behind_rounds fuel ps n) s t
      → remove_rounds send' fuel ps (t, o) ≡ some b
      → Ends n (remove_rounds send fuel ps (s, o)) b
  unfolding remove_rounds behind_rounds
  remove_rounds-Ends ps zero n s t (stops o) b m h e = some-Ends n s t o b h e
  remove_rounds-Ends ps (suc fuel) n s t (stops o) b m h e =
      some-Ends n s t o b (less_behind (suc fuel) ps n s t h) e
  remove_rounds-Ends ps zero n s t (counts k) b m h e = elim (Bool-cases (ltb 0 k)) [
    | inl left ↦ absurd (ground (arith, e, left))
    | inr done ↦ rw done (some-Ends n s t fine b h (rw done at e))
  ]
  remove_rounds-Ends ps (suc fuel) n s t (counts k) b m h e = elim (Bool-cases (ltb 0 k)) [
    | inl left ↦
        let (same, next) =
          remove_round-Same ps (behind_rounds fuel ps n) s t (counts (length ps)) m h in
        let a' = remove_round send ps (s, counts (length ps)) in
        let b' = remove_round send' ps (t, counts (length ps)) in
        rw left (
          remove_rounds-Ends ps fuel n a'.0 b'.0 a'.1 b m next
            (ap (λ o. remove_rounds send' fuel ps (b'.0, o)) same ∙ (rw left at e)))
    | inr done ↦ rw done (some-Ends n s t fine b (less_behind (suc fuel) ps n s t h) (rw done at e))
  ]

  pub bruteforce_removes_all_packages-Ends :
      (ps : List Package) (fuel n : ℕ) (s : S) (t : T) (b : T × Outcome)
      → All (λ p. Sendable (make_remove_message p)) ps
      → Alike (behind_rounds fuel ps n) s t
      → bruteforce_removes_all_packages send' fuel ps t ≡ some b
      → Ends n (bruteforce_removes_all_packages send fuel ps s) b
  unfolding bruteforce_removes_all_packages
  bruteforce_removes_all_packages-Ends ps fuel n s t b m h e =
      remove_rounds-Ends ps fuel n s t (counts (length ps)) b m h e
