-- ===== src/Suite/Concurrent/Moves.antt =====
-- A move of a goroutine, over a server that keeps the protocol.
use package_index.Base.{
  ℕ, ◌+◌, ◌<◌, false, some, List, [], ◌∷◌, ◌++◌, ◌≡◌, refl, ap, sym, ◌∙◌, subst, All, All-right,
  append_assoc, append-nil, length, length-append, bytes_eq, arith, Bool-cases, inl, inr, ltb,
}
use package_index.Index.Graph.{Graph, IsOrdered}
use package_index.Suite.Packages.{Package, AllPackages}
use package_index.Suite.WireFormat.Answers.{IsNamed}
use package_index.Suite.Run.{unlucky}
use package_index.Suite.Run.Passed.{AllHave}
use package_index.Suite.Run.Steps.{unlucky-fine}
use package_index.Suite.Run.Verify.{answer}
use package_index.Suite.Phases.{Task, removes, indexes, verifies}
use package_index.Suite.Concurrent.{
  Stage, dials, draws, sends, Worker, Move, goes, done, ready, next_round, message, after_draw,
  after_message, after_round, move_at, move,
}
use package_index.Suite.Concurrent.Messages.{wanted, scored, IsCarried, Finds, message-Heard}
use package_index.Suite.Concurrent.Workers.{
  Tally, IsOn, GoesWell, same-Kept, missed, scored-Tally, reached-append,
}

enough_removed :
    (failed left : ℕ) (count : ℕ) → ltb 0 count ≡ false → count ≡ failed + left → failed ≡ 0
enough_removed failed left count h e = ground arith

module _ (all : AllPackages) (g : Graph) (w : Worker) where
  -- A round that is over, with all that the goroutine has done.
  all_reached :
      (t : Task) (h : IsOn all t g w) → w.round ≡ [] → h.failed ≡ 0 → AllHave (wanted t) w.segment g
  all_reached t h e none_failed =
      let whole : w.segment ≡ h.passed = h.split ∙ ap (◌++◌ h.passed) e ∙ append-nil h.passed in
      subst (λ s. AllHave (wanted t) s g) (sym whole) (h.reached none_failed)

  next_round-GoesWell {κ} :
      {R : Type κ} (t : Task) (r : R)
      → w.round ≡ []
      → IsOrdered g
      → IsOn all t g w
      → GoesWell all t w.segment g ((g, r), next_round t w)
  unfolding next_round
  next_round-GoesWell removes r e o h = elim (Bool-cases (ltb 0 w.count)) [
    | inl more ↦ rw more (
      record {
        passed = [];
        failed = 0;
        carried = h.carried;
        split = refl;
        tally = omega arith;
        reached = λ q. tt;
      },
      refl,
      same-Kept removes g o,
    )
    | inr enough ↦ rw enough (
      refl,
      all_reached removes h e (enough_removed h.failed (length w.round) w.count enough h.tally),
      same-Kept removes g o,
    )
  ]
  next_round-GoesWell indexes r e o h = elim (Bool-cases (ltb w.count (length w.segment))) [
    | inl more ↦ rw more (
      record {
        passed = [];
        failed = 0;
        carried = h.carried;
        split = refl;
        tally = omega arith;
        reached = λ q. tt;
      },
      refl,
      same-Kept indexes g o,
    )
    | inr enough ↦
        let whole : length w.segment ≡ length h.passed + length w.round =
          ap (λ (x : List Package). length x) h.split ∙ length-append h.passed w.round in
        rw enough (
          refl,
          all_reached indexes h e (ground (arith, enough, whole, h.tally)),
          same-Kept indexes g o,
        )
  ]
  next_round-GoesWell (verifies c) r e o h =
      (refl, all_reached (verifies c) h e h.tally, same-Kept (verifies c) g o)

  module _ {κ} {R : Type κ} (intn : ℕ → R → ℕ × R)
      (bounded : (n : ℕ) (r : R) → 0 < n → (intn n r).0 < n) (named : All IsNamed all) (chance : ℕ)
      (o : IsOrdered g) where
    -- A goroutine at another place of its function.
    at_stage-GoesWell :
        (t : Task) (stage : Stage) (r : R)
        → IsOn all t g w
        → GoesWell all t w.segment g ((g, r), goes (record w { stage = stage }))
    at_stage-GoesWell t stage r h = (
      record {
        passed = h.passed;
        failed = h.failed;
        carried = h.carried;
        split = h.split;
        tally = h.tally;
        reached = h.reached;
      },
      refl,
      same-Kept t g o,
    )

    after_draw-GoesWell :
        (t : Task) (r : R)
        → IsOn all t g w
        → GoesWell all t w.segment g
            (after_draw answer some (λ x. x) intn all chance w (unlucky answer intn chance (g, r)))
    after_draw-GoesWell t r h =
        let (r', e) = unlucky-fine intn bounded chance g r in
        subst
          (λ m. GoesWell all t w.segment g (after_draw answer some (λ x. x) intn all chance w m))
          (sym e) (at_stage-GoesWell t sends r' h)

    after_message-GoesWell :
        (t : Task) (p : Package) (rest : List Package) (r : R)
        → w.round ≡ p ∷ rest
        → All (λ p. Finds t g p.name) w.segment
        → IsOn all t g w
        → GoesWell all t w.segment g (
            after_message answer some
              (λ x. x)
              intn
              all
              chance
              t
              w
              rest
              (message answer some (λ x. x) intn all chance t p w.count (g, r)))
    after_message-GoesWell t p rest r e finds h =
        let split : w.segment ≡ h.passed ++ (p ∷ rest) = h.split ∙ ap (◌++◌ h.passed) e in
        let carried =
          All-right (IsCarried all) h.passed (p ∷ rest)
            (subst (All (IsCarried all)) split h.carried) in
        let found =
          All-right (λ q. Finds t g q.name) h.passed (p ∷ rest)
            (subst (All (λ q. Finds t g q.name)) split finds) in
        let heard = message-Heard intn all named chance t p w.count g r carried.0 o found.0 in
        subst
          (λ m.
            GoesWell all t w.segment g
              (after_message answer some (λ x. x) intn all chance t w rest m))
          (sym heard.says)
          (
            record {
              passed = h.passed ++ p ∷ [];
              failed = missed h.failed heard.hoped;
              carried = h.carried;
              split = split ∙ sym (append_assoc h.passed (p ∷ []) rest);
              tally =
                  subst
                    (λ n.
                      Tally t (scored t w.count heard.hoped) (missed h.failed heard.hoped) n
                        (length rest))
                    (omega (arith, length-append h.passed (p ∷ [])))
                    (scored-Tally t w.count h.failed (length h.passed) (length rest) heard.hoped
                      heard.sure
                      (subst (λ x. Tally t w.count h.failed (length h.passed) (length x)) e
                        h.tally));
              reached =
                  reached-append (wanted t) heard.hoped h.failed h.passed p g heard.after
                    heard.keeps heard.means h.reached;
            },
            refl,
            record { ordered = heard.ordered; keeps = heard.keeps },
          )

    -- A Close that the server does not see.
    after_round-GoesWell :
        (t : Task) (r : R) (m : Move)
        → GoesWell all t w.segment g ((g, r), m)
        → GoesWell all t w.segment g (after_round answer some (λ x. x) intn all chance (g, r) m)
    after_round-GoesWell t r (goes v) h = h
    after_round-GoesWell t r (done q) h = h

    move_at-GoesWell :
        (t : Task) (stage : Stage) (round : List Package) (r : R)
        → w.round ≡ round
        → All (λ p. Finds t g p.name) w.segment
        → IsOn all t g w
        → GoesWell all t w.segment g
            (move_at answer some (λ x. x) intn all chance t w stage round (g, r))
    unfolding move_at
    move_at-GoesWell t dials round r e finds h = at_stage-GoesWell t (ready t) r h
    move_at-GoesWell t draws [] r e finds h =
        after_round-GoesWell t r (next_round t w) (next_round-GoesWell t r e o h)
    move_at-GoesWell t sends [] r e finds h =
        after_round-GoesWell t r (next_round t w) (next_round-GoesWell t r e o h)
    move_at-GoesWell t draws (p ∷ rest) r e finds h = after_draw-GoesWell t r h
    move_at-GoesWell t sends (p ∷ rest) r e finds h = after_message-GoesWell t p rest r e finds h

    pub move-GoesWell :
        (t : Task) (r : R)
        → All (λ p. Finds t g p.name) w.segment
        → IsOn all t g w
        → GoesWell all t w.segment g (move answer some (λ x. x) intn all chance t w (g, r))
    unfolding move
    move-GoesWell t r finds h = move_at-GoesWell t w.stage w.round r refl finds h
