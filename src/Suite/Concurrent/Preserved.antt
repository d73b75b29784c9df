-- ===== src/Suite/Concurrent/Preserved.antt =====
-- What holds of the run with its goroutines is kept by their moves.
use package_index.Base.{
  ℕ, zero, suc, ◌<◌, ◌||◌, List, ◌∷◌, ◌++◌, ◌≡◌, ap, sym, ◌∙◌, subst, All, All-append, All-left,
  All-right, All-weaken, Name, bytes_eq, arith, Bool-cases, inl, inr,
}
use package_index.Base.Maps.{has}
use package_index.Base.Sets.{contains}
use package_index.Index.Graph.{Graph}
use package_index.Suite.Packages.{Package, AllPackages, names}
use package_index.Suite.Run.{fine, returns_error, panics}
use package_index.Suite.Run.Passed.{AllHave}
use package_index.Suite.Phases.{Segments, wait_done, after_client}
use package_index.Suite.Concurrent.{
  Worker, start_worker, Move, goes, done, Fleet, segments_of, after_move,
}
use package_index.Suite.Concurrent.Messages.{wanted, IsCarried, Finds}
use package_index.Suite.Concurrent.Workers.{IsOn, Kept, GoesWell, start_worker-IsOn, IsOn-keeps}
use package_index.Suite.Concurrent.Refinement.{
  segments_of-append, segments_of-replace, segment-start_worker,
}
use package_index.Suite.Concurrent.Sound.{
  mentions, mentions-append, All-of_names, of_names-All, IsSound, Finds-keeps,
}

mentions-middle :
    (before : List Worker) (w : Worker) (after : List Worker) (x : Name)
    → mentions (segments_of (before ++ (w ∷ after))) x
      ≡ (contains (names w.segment) x || mentions (segments_of (before ++ after)) x)
unfolding mentions
mentions-middle before w after x =
    rw (segments_of-append before (w ∷ after), segments_of-append before after)
      (ground (
        arith,
        mentions-append (segments_of before) (w.segment ∷ segments_of after) x,
        mentions-append (segments_of before) (segments_of after) x,
      ))

module _ {κ} {R : Type κ} (all : AllPackages) (segments : Segments) (f : Fleet Graph R)
    (sound : IsSound all segments f) where
  pub starts-IsSound :
      (s : List Package) (rest : Segments)
      → f.run.pending ≡ s ∷ rest
      → IsSound all segments (record f {
        run = record f.run { pending = rest; running = s ∷ f.run.running };
        workers = start_worker f.task s ∷ f.workers;
      })
  unfolding mentions
  starts-IsSound s rest e =
      let due = subst (All (All (IsCarried all))) e sound.due in
      let same = segment-start_worker f.task s in
      record {
        alive = sound.alive;
        ordered = sound.ordered;
        working = (start_worker-IsOn all f.task f.server s due.0, sound.working);
        due = due.1;
        pending_known = λ x c.
            sound.pending_known x (ap (λ (p : Segments). mentions p x) e ∙ ground (arith, c));
        running_known = λ x c. elim (Bool-cases (contains (names s) x)) [
          | inl here ↦
              sound.pending_known x (ap (λ (p : Segments). mentions p x) e ∙ ground (arith, here))
          | inr other ↦
              sound.running_known x
                (ground (arith, c, other, ap (λ (q : List Package). contains (names q) x) same))
        ];
        accounted = λ x a b c.
            sound.accounted x a
              (ap (λ (p : Segments). mentions p x) e
                ∙ ground (arith, b, c, ap (λ (q : List Package). contains (names q) x) same))
              (ground (arith, c));
        finds = sound.finds;
        follows = sound.follows;
      }

  -- A goroutine's move.
  module _ (before : List Worker) (w : Worker) (after : List Worker)
      (e : f.workers ≡ before ++ (w ∷ after)) where
    on : All (IsOn all f.task f.server) (before ++ (w ∷ after))
    on = subst (All (IsOn all f.task f.server)) e sound.working

    pub w-IsOn : IsOn all f.task f.server w
    w-IsOn = (All-right (IsOn all f.task f.server) before (w ∷ after) on).0

    others-IsOn :
        (g' : Graph)
        → Kept f.task f.server g'
        → All (IsOn all f.task g') before × All (IsOn all f.task g') after
    others-IsOn g' kept = (
      All-weaken _ _ before (λ v h. IsOn-keeps all f.task f.server g' v kept h)
          (All-left (IsOn all f.task f.server) before (w ∷ after) on),
      All-weaken _ _ after (λ v h. IsOn-keeps all f.task f.server g' v kept h)
          (All-right (IsOn all f.task f.server) before (w ∷ after) on).1,
    )

    mentions-workers :
        (x : Name)
        → mentions (segments_of f.workers) x
          ≡ (contains (names w.segment) x || mentions (segments_of (before ++ after)) x)
    mentions-workers x =
        ap (λ (ws : List Worker). mentions (segments_of ws) x) e ∙ mentions-middle before w after x

    pub w-Finds : All (λ p. Finds f.task f.server p.name) w.segment
    w-Finds =
        All-of_names (Finds f.task f.server) w.segment
          (λ x c. sound.finds x (sound.running_known x (ground (arith, mentions-workers x, c))))

    goes-IsSound :
        (g' : Graph) (r : R) (v : Worker)
        → IsOn all f.task g' v
        → v.segment ≡ w.segment
        → Kept f.task f.server g'
        → IsSound all segments
            (record f { workers = before ++ (v ∷ after); server = g'; random = r })
    goes-IsSound g' r v v_on same kept =
        let others = others-IsOn g' kept in
        let q : segments_of (before ++ (v ∷ after)) ≡ segments_of f.workers =
          segments_of-replace before w v after same ∙ ap segments_of (sym e) in
        record {
          alive = sound.alive;
          ordered = kept.ordered;
          working = All-append (IsOn all f.task g') before (v ∷ after) others.0 (v_on, others.1);
          due = sound.due;
          pending_known = sound.pending_known;
          running_known =
              λ x c. sound.running_known x (ap (λ (p : Segments). mentions p x) (sym q) ∙ c);
          accounted = λ x a b c.
              kept.keeps x
                (sound.accounted x a b (ap (λ (p : Segments). mentions p x) (sym q) ∙ c));
          finds = λ x a. Finds-keeps f.task f.server g' x kept (sound.finds x a);
          follows = sound.follows;
        }

    done-IsSound :
        (n : ℕ) (g' : Graph) (r : R)
        → 0 < n
        → AllHave (wanted f.task) w.segment g'
        → Kept f.task f.server g'
        → IsSound all segments (record f {
          run = wait_done n (record f.run { running = segments_of (before ++ after) });
          workers = before ++ after;
          server = g';
          random = r;
        })
    done-IsSound zero g' r pos have kept = absurd (omega (arith, pos))
    done-IsSound (suc n) g' r pos have kept =
        let others = others-IsOn g' kept in
        record {
          alive = sound.alive;
          ordered = kept.ordered;
          working = All-append (IsOn all f.task g') before after others.0 others.1;
          due = sound.due;
          pending_known = sound.pending_known;
          running_known = λ x c. sound.running_known x (ground (arith, mentions-workers x, c));
          accounted = λ x a b c. elim (Bool-cases (contains (names w.segment) x)) [
            | inl its ↦ of_names-All (λ y. has y g' ≡ wanted f.task) w.segment x have its
            | inr other ↦
                kept.keeps x (sound.accounted x a b (ground (arith, mentions-workers x, c, other)))
          ];
          finds = λ x a. Finds-keeps f.task f.server g' x kept (sound.finds x a);
          follows = sound.follows;
        }

    pub after_move-IsSound :
        (m : (Graph × R) × Move)
        → 0 < f.run.counter
        → GoesWell all f.task w.segment f.server m
        → IsSound all segments (after_move before after f m)
    unfolding after_move after_client
    after_move-IsSound ((g', r), goes v) pos h = goes-IsSound g' r v h.0 h.1 h.2
    after_move-IsSound ((g', r), done fine) pos h = done-IsSound f.run.counter g' r pos h.1 h.2
    after_move-IsSound ((g', r), done returns_error) pos h = cc
    after_move-IsSound ((g', r), done panics) pos h = cc
