-- ===== src/Suite/Served/Whole.antt =====
-- The whole test run of one client, over the server with an index behind it that keeps its promise.
use package_index.Base.{
  ℕ, suc, ◌+◌, ◌*◌, ◌<◌, ◌≤◌, false, Option, some, List, [], ◌∷◌, ◌++◌, ◌≡◌, ◌∙◌, sym, ap, subst,
  All, All-weaken, length, Bytes, Name, bytes_eq, arith,
}
use package_index.Index.Graph.{Graph}
use package_index.Index.Api.{IndexApi, IsIndex}
use package_index.Server.Bufio.{Arrival}
use package_index.Server.ReadMessage.Framing.{Delivers}
use package_index.Server.Serve.{World}
use package_index.Suite.Client.{ResponseCode, ok, fail}
use package_index.Suite.Packages.{Package, AllPackages}
use package_index.Suite.WireFormat.{make_remove_message, make_query_message, make_index_message}
use package_index.Suite.WireFormat.Answers.{IsNamed}
use package_index.Suite.Run.Verify.{answer}
use package_index.Suite.Run.Passed.{AllHave, AllRanked, IsReady}
use package_index.Suite.Run.Removal.{IsRemovable}
use package_index.Suite.Run.Simulation.{
  beside, behind_rounds, beside-length, behind_rounds-length, verify_all_packages-Same,
  bruteforce_removes_all_packages-Ends,
}
use package_index.Suite.Run.Simulation.Indexing.{
  IfMade, twice_behind, twice_behind-length, bruteforce_indexes_packages-EndsLike,
}
use package_index.Suite.Run.OneClient.{run}
use package_index.Suite.Run.OneClient.Steps.{
  run-ends, removes_step-ends, indexes_step-ends, verifies_step-ends,
}
use package_index.Suite.Run.OneClient.Grows.{flipped}
use package_index.Suite.Run.OneClient.Passes.{All-both, steps-pass}
use package_index.Suite.Served.{served, Serves, Sendable, IsServable}
use package_index.Suite.Served.Messages.{
  IsShort, remove_message-Sendable, query_message-Sendable, index_message-Sendable,
  broken_message-Sendable,
}
use package_index.Suite.Served.Answers.{served-answer, less_room}
use package_index.Suite.Run.{
  Outcome, fine, verify_all_packages, bruteforce_removes_all_packages, bruteforce_indexes_packages,
}

-- The messages that name the package fit the server's buffer.
abbrev pub FitsBuffer : ℕ → AllPackages → Package → Type 0
FitsBuffer size all p = (suc (length (make_remove_message p)) ≤ size) × IsShort size all p

module _ {ℓ} {S : Type ℓ} (api : IndexApi S) (network : Bytes → List Arrival)
    (promise : IsIndex api) (size : ℕ)
    (delivers : (msg : Bytes) → Delivers msg (network (msg ++ b'\n' ∷ []))) where
  abbrev Serving : ℕ → World S → Graph → Type ℓ
  Serving = Serves api promise size

  abbrev sends : World S → Bytes → World S × Option ResponseCode
  sends = served api network

  -- The loops end over the server as over `answer`.
  removes-served :
      (ps : AllPackages) (fuel n : ℕ) (w : World S) (g g' : Graph)
      → All (IsServable size) ps
      → Serving (behind_rounds fuel ps n) w g
      → bruteforce_removes_all_packages answer fuel ps g ≡ some (g', fine)
      → (w' : World S) × (bruteforce_removes_all_packages sends fuel ps w ≡ some (w', fine))
        × Serving n w' g'
  removes-served ps fuel n w g g' h s e =
      let (a, ends, both) =
        bruteforce_removes_all_packages-Ends sends answer Serving (Sendable size)
          (less_room api network promise size delivers)
          (served-answer api network promise size delivers) ps fuel n w g (g', fine)
          (All-weaken (IsServable size) (λ p. Sendable size (make_remove_message p)) ps
            (remove_message-Sendable size) h)
          s e in
      (a.0, ends ∙ (λ i. some (a.0, both.0 i)), both.1)

  verifies-served :
      (expected : ResponseCode) (ps : AllPackages) (n : ℕ) (w : World S) (g : Graph)
      → All (IsServable size) ps
      → Serving (beside ps n) w g
      → verify_all_packages answer expected ps (g, fine) ≡ (g, fine)
      → (w' : World S) × (verify_all_packages sends expected ps (w, fine) ≡ (w', fine))
        × Serving n w' g
  verifies-served expected ps n w g h s e =
      let (same, serves) =
        verify_all_packages-Same sends answer Serving (Sendable size)
          (less_room api network promise size delivers)
          (served-answer api network promise size delivers) expected ps n w g fine
          (All-weaken (IsServable size) (λ p. Sendable size (make_query_message p)) ps
            (query_message-Sendable size) h)
          s in
      let w' = (verify_all_packages sends expected ps (w, fine)).0 in
      (
        w',
        (λ i. (w', (same ∙ ap (λ (x : Graph × Outcome). x.1) e) i)),
        subst (Serving n w') (ap (λ (x : Graph × Outcome). x.0) e) serves,
      )

  -- A new connection to the same server.
  abbrev pub Dials : (World S → Option (World S)) → ℕ → World S → Graph → Type ℓ
  Dials dial n w g = (w' : World S) × (dial w ≡ some w') × Serving n w' g

  module _ {κ} {R : Type κ} (intn : ℕ → R → ℕ × R) (all : AllPackages) where
    indexes-served :
        (fuel unluckiness n : ℕ) (w : World S) (g g' : Graph) (r r' : R)
        → 32 ≤ size
        → All (λ p. IfMade (Sendable size) (make_index_message all p)) all
        → Serving (twice_behind fuel all n) w g
        → bruteforce_indexes_packages answer intn fuel all unluckiness all (g, r)
          ≡ some ((g', r'), fine)
        → (w' : World S) × (bruteforce_indexes_packages sends intn fuel all unluckiness all (w, r)
            ≡ some ((w', r'), fine))
          × Serving n w' g'
    indexes-served fuel unluckiness n w g g' r r' large h s e =
        let (a, ends, both) =
          bruteforce_indexes_packages-EndsLike sends answer Serving (Sendable size)
            (less_room api network promise size delivers)
            (served-answer api network promise size delivers) intn
            (λ kind choice. broken_message-Sendable size kind choice large) all unluckiness all fuel
            n w g r ((g', r'), fine) h s e in
        (a.0.0, ends ∙ (λ i. some ((a.0.0, (both.0 i).0), (both.0 i).1)), both.1)

    servables :
        (rank : Name → ℕ)
        → All (IsReady all all rank) all
        → All (FitsBuffer size all) all
        → All (IsServable size) all
    servables rank ready fits =
        All-weaken _ _ all (λ p h. (h.0.named, h.1.0))
          (All-both (IsReady all all rank) (FitsBuffer size all) all ready fits)

    made :
        (rank : Name → ℕ)
        → All (IsReady all all rank) all
        → All (FitsBuffer size all) all
        → All (λ p. IfMade (Sendable size) (make_index_message all p)) all
    made rank ready fits =
        All-weaken _ _ all
          (λ p h.
            index_message-Sendable size all p
              (All-weaken (IsReady all all rank) IsNamed all (λ q k. k.named) ready) h.0.named
              h.0.within h.1.1)
          (All-both (IsReady all all rank) (FitsBuffer size all) all ready fits)

    -- The room for the calls of a run.
    room-lem :
        (bound : ℕ)
        → behind_rounds bound all
            (twice_behind bound all (beside all (behind_rounds bound all (beside all 0))))
          ≡ (4 * bound + 2) * length all
    room-lem bound = omega (
      arith,
      behind_rounds-length bound all
          (twice_behind bound all (beside all (behind_rounds bound all (beside all 0)))),
      twice_behind-length bound all (beside all (behind_rounds bound all (beside all 0))),
      beside-length all (behind_rounds bound all (beside all 0)),
      behind_rounds-length bound all (beside all 0),
      beside-length all 0,
    )

    -- One client runs the test over the server, with any index behind it that keeps its promise, shows
    -- `g` and has room for every call, through a buffer of at least 32 bytes that every message fits, if
    -- each step can dial and neither that nor Close touches the index, on packages whose dependencies are
    -- among them and rank below the packages that have them, with all ranks below `bound`, all pointers in
    -- the registry and names that the format can carry, from a graph whose packages depend on older ones,
    -- in which whatever depends on one of the packages is one of them and ranks above it: all five steps
    -- end without an error, each loop in at most `bound` rounds, whatever the unluckiness and the random
    -- numbers in range; the index still keeps its promise then, and shows a graph with none of the packages.
    pub run-served :
        (dial : World S → Option (World S)) (close : World S → World S)
        (dials : (n : ℕ) (w : World S) (g : Graph) → Serving n w g → Dials dial n w g)
        (closes : (n : ℕ) (w : World S) (g : Graph) → Serving n w g → Serving n (close w) g)
        (bounded : (n : ℕ) (r : R) → 0 < n → (intn n r).0 < n) (rank : Name → ℕ) (bound : ℕ)
        (ready : All (IsReady all all rank) all) (ranks : AllRanked rank bound all)
        (unluckiness : ℕ) (w : World S) (g : Graph) (r : R)
        → 32 ≤ size
        → All (FitsBuffer size all) all
        → IsRemovable all (flipped bound rank) g
        → Serving ((4 * bound + 2) * length all) w g
        → (w' : World S) × (g' : Graph) × (r' : R) × (run sends dial close intn bound all
              unluckiness
              (w, r)
            ≡ some ((w', r'), fine))
          × Serving 0 w' g'
          × AllHave false all g'
    run-served dial close dials closes bounded rank bound ready ranks unluckiness w g r large fits v
          s =
        let (g1, g2, r2, g3, first, second, third, fourth, fifth, gone) =
          steps-pass intn bounded all rank bound ready ranks unluckiness g r v in
        let servable = servables rank ready fits in
        let (d1, dial1, t1) = dials _ w g (subst (λ n. Serving n w g) (sym (room-lem bound)) s) in
        let (w1, first', s1) = removes-served all bound _ d1 g g1 servable t1 first in
        let (d2, dial2, t2) = dials _ (close w1) g1 (closes _ w1 g1 s1) in
        let (w2, second', s2) =
          indexes-served bound unluckiness _ d2 g1 g2 r r2 large (made rank ready fits) t2 second in
        let (d3, dial3, t3) = dials _ (close w2) g2 (closes _ w2 g2 s2) in
        let (w3, third', s3) = verifies-served ok all _ d3 g2 servable t3 third in
        let (d4, dial4, t4) = dials _ (close w3) g2 (closes _ w3 g2 s3) in
        let (w4, fourth', s4) = removes-served all bound _ d4 g2 g3 servable t4 fourth in
        let (d5, dial5, t5) = dials _ (close w4) g3 (closes _ w4 g3 s4) in
        let (w5, fifth', s5) = verifies-served fail all 0 d5 g3 servable t5 fifth in
        (
          close w5,
          g3,
          r2,
          run-ends sends dial close intn bound all unluckiness (w, r) (close w1, r) (close w2, r2)
              (close w3, r2) (close w4, r2) (close w5, r2)
              (removes_step-ends sends dial close intn bound all w d1 w1 r dial1 first')
              (indexes_step-ends sends dial close intn bound all unluckiness (close w1) d2 w2 r r2
                dial2 second')
              (verifies_step-ends sends dial close intn bound all ok (close w2) d3 w3 r2 dial3
                third')
              (removes_step-ends sends dial close intn bound all (close w3) d4 w4 r2 dial4 fourth')
              (verifies_step-ends sends dial close intn bound all fail (close w4) d5 w5 r2 dial5
                fifth'),
          closes 0 w5 g3 s5,
          gone,
        )
