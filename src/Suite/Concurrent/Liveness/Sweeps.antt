-- ===== src/Suite/Concurrent/Liveness/Sweeps.antt =====
-- Sweeps over the goroutines get all packages as the step wants them.
use package_index.Base.{
  ℕ, zero, suc, ◌+◌, ◌<◌, ◌≤◌, true, none, List, [], ◌∷◌, ◌++◌, ◌≡◌, refl, ap, sym, ◌∙◌, subst, All,
  All-append, append_assoc, append-nil, length, Name, bytes_eq, arith, inl, inr, Bool-cases,
}
use package_index.Base.Maps.{has}
use package_index.Base.Sets.{contains}
use package_index.Index.Graph.{Graph}
use package_index.Suite.Packages.{Package, names}
use package_index.Suite.Segments.{flatten}
use package_index.Suite.Run.Removal.{IsRemovable}
use package_index.Suite.Run.OneClient.Grows.{flipped}
use package_index.Suite.Phases.{Task, Segments}
use package_index.Suite.Concurrent.{Worker, Fleet, here, segments_of}
use package_index.Suite.Concurrent.Messages.{wanted, IsCarried}
use package_index.Suite.Concurrent.Sound.{mentions, mentions-flatten, of_names-All}
use package_index.Suite.Concurrent.Liveness.Solo.{Setting, IsHandled, rank_for}
use package_index.Suite.Concurrent.Liveness.Invariants.{alive-IsSound}
use package_index.Suite.Concurrent.Liveness.Later.{
  FleetSteps-trans, IsLater, same-IsLater, IsLater-trans, Goes, IsServed, IsServed-keeps,
}
use package_index.Suite.Concurrent.Liveness.Sweep.{IsAt, IsAllBelow, w-Turned}

module _ {κ} {R : Type κ} (given : Setting R) (level : ℕ) (segments : Segments) where
  served-mentions :
      (t : Task) (k : ℕ) (g : Graph) (ws : List Worker) (x : Name)
      → All (IsServed given level segments t k g) ws
      → mentions (segments_of ws) x ≡ true
      → rank_for given t x < suc k
      → has x g ≡ wanted t
  unfolding mentions
  served-mentions t k g [] x h m l = cc
  served-mentions t k g (w ∷ ws) x h m l = elim (Bool-cases (contains (names w.segment) x)) [
    | inl its ↦
        of_names-All (λ y. rank_for given t y < suc k → has y g ≡ wanted t) w.segment x h.0 its l
    | inr other ↦ served-mentions t k g ws x h.1 (ground (arith, m, other)) l
  ]

  module _ (few : length segments ≤ level) (whole : flatten segments ≡ given.all)
      (carried : All (All (IsCarried given.all)) segments)
      (handled : All (All (IsHandled given)) segments) (g0 : Graph) (r0 : R)
      (v : IsRemovable given.all (flipped given.bound given.rank) g0) where
    abbrev pub IsHere : Fleet Graph R → Type κ
    IsHere f = IsAt given level segments few whole carried handled g0 r0 v f

    abbrev pub IsDone : ℕ → Fleet Graph R → Type 0
    IsDone k f = IsAllBelow given level segments few whole carried handled g0 r0 v k f

    pub IsDone-later : (k : ℕ) (f f' : Fleet Graph R) → IsLater f f' → IsDone k f → IsDone k f'
    IsDone-later k f f' later low =
        subst
          (λ t.
            (x : Name)
            → contains (names given.all) x ≡ true
            → rank_for given t x < k
            → has x f'.server ≡ wanted t)
          (sym later.same_task) (λ x c l. later.keeps x (low x c l))

    pub record Swept (f : Fleet Graph R) (k : ℕ) : Type κ where
      pub f' : Fleet Graph R
      pub steps : Goes given level segments f f'
      pub later : IsLater f f'
      pub served : All (IsServed given level segments f.task k f'.server) f'.workers

    sweep :
        (ws before : List Worker) (f : Fleet Graph R) (k : ℕ)
        → IsHere f
        → f.run.exit ≡ none
        → f.run.pending ≡ []
        → f.workers ≡ before ++ ws
        → IsDone k f
        → All (IsServed given level segments f.task k f.server) before
        → Swept f k
    sweep [] before f k at alive p e low served = record {
      f' = f;
      steps = here;
      later = same-IsLater f alive p;
      served =
          subst (All (IsServed given level segments f.task k f.server))
            (sym (e ∙ append-nil before)) served;
    }
    sweep (w ∷ ws) before f k at alive p e low served =
        let turned =
          w-Turned given level segments few whole carried handled g0 r0 v f before w ws k at alive p
            e low in
        let f1 = turned.f' in
        let kept =
          IsServed-keeps given level segments f.task k f.server f1.server before turned.later.keeps
            served in
        let more =
          sweep ws (before ++ turned.middle) f1 k (FleetSteps-trans at turned.steps)
            turned.later.alive turned.later.no_pending
            (turned.workers ∙ sym (append_assoc before turned.middle ws))
            (IsDone-later k f f1 turned.later low)
            (subst
              (λ t. All (IsServed given level segments t k f1.server) (before ++ turned.middle))
              (sym turned.later.same_task)
              (All-append _ before turned.middle kept turned.served)) in
        record {
          f' = more.f';
          steps = FleetSteps-trans turned.steps more.steps;
          later = IsLater-trans f f1 more.f' turned.later more.later;
          served =
              subst (λ t. All (IsServed given level segments t k more.f'.server) more.f'.workers)
                turned.later.same_task more.served;
        }

    -- Behind a sweep all packages that rank low are as the step wants them.
    pub Swept-IsDone :
        (f : Fleet Graph R) (k : ℕ) → IsHere f → (s : Swept f k) → IsDone (suc k) s.f'
    unfolding mentions
    Swept-IsDone f k at s x c l =
        let sound =
          alive-IsSound given level segments few whole carried handled g0 r0 v
            (FleetSteps-trans at s.steps) s.later.alive in
        let known : mentions segments x ≡ true =
          mentions-flatten segments x ∙ ap (λ (q : List Package). contains (names q) x) whole ∙ c in
        elim (Bool-cases (mentions (segments_of s.f'.workers) x)) [
          | inl its ↦
              subst (λ t. rank_for given t x < suc k → has x s.f'.server ≡ wanted t)
                (sym s.later.same_task)
                (served-mentions f.task k s.f'.server s.f'.workers x s.served its) l
          | inr none_left ↦
              sound.accounted x known (ap (λ (p : Segments). mentions p x) s.later.no_pending)
                none_left
        ]

    -- Some steps behind which all of the packages are as the step wants them.
    pub record Raised (f : Fleet Graph R) (k : ℕ) : Type κ where
      pub f' : Fleet Graph R
      pub steps : Goes given level segments f f'
      pub later : IsLater f f'
      pub low : IsDone k f'

    pub sweeps :
        (n k : ℕ) (f : Fleet Graph R)
        → IsHere f
        → f.run.exit ≡ none
        → f.run.pending ≡ []
        → IsDone k f
        → Raised f (k + n)
    sweeps zero k f at alive p low = record {
      f' = f;
      steps = here;
      later = same-IsLater f alive p;
      low = subst (λ m. IsDone m f) (omega arith) low;
    }
    sweeps (suc n) k f at alive p low =
        let s = sweep f.workers [] f k at alive p refl low tt in
        let more =
          sweeps n (suc k) s.f' (FleetSteps-trans at s.steps) s.later.alive s.later.no_pending
            (Swept-IsDone f k at s) in
        record {
          f' = more.f';
          steps = FleetSteps-trans s.steps more.steps;
          later = IsLater-trans f s.f' more.f' s.later more.later;
          low = subst (λ m. IsDone m more.f') (omega arith) more.low;
        }
