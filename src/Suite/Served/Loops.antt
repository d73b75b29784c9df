-- ===== src/Suite/Served/Loops.antt =====
-- The test client's loops over the server, with an index behind it that keeps its promise.
use package_index.Base.{
  ℕ, ◌*◌, Bool, false, some, List, [], ◌∷◌, ◌++◌, ◌≡◌, ◌∙◌, ◌↔◌, ap, sym, subst, All, length, Bytes,
  Name, bytes_eq, arith, All-weaken,
}
use package_index.Base.Maps.{has}
use package_index.Index.Graph.{Graph}
use package_index.Index.Api.{IndexApi, IsIndex}
use package_index.Server.Bufio.{Arrival}
use package_index.Server.ReadMessage.Framing.{Delivers}
use package_index.Server.Serve.{World}
use package_index.Suite.Packages.{Package, AllPackages}
use package_index.Suite.WireFormat.{make_remove_message, make_query_message}
use package_index.Suite.WireFormat.Answers.{IsNamed}
use package_index.Suite.Run.Verify.{
  answer, code_of, verify_all_packages-has, verify_all_packages-keeps,
}
use package_index.Suite.Run.Passed.{AllHave, AllRanked}
use package_index.Suite.Run.Removal.{IsRemovable, bruteforce_removes_all_packages-ends}
use package_index.Suite.Run.Simulation.{
  beside-length, behind_rounds-length, verify_all_packages-Same,
  bruteforce_removes_all_packages-Ends,
}
use package_index.Suite.Run.{Outcome, fine, verify_all_packages, bruteforce_removes_all_packages}
use package_index.Suite.Served.{served, Serves, Sendable, IsServable}
use package_index.Suite.Served.Messages.{remove_message-Sendable, query_message-Sendable}
use package_index.Suite.Served.Answers.{served-answer, less_room}

module _ {ℓ} {S : Type ℓ} (api : IndexApi S) (network : Bytes → List Arrival)
    (promise : IsIndex api) (size : ℕ)
    (delivers : (msg : Bytes) → Delivers msg (network (msg ++ b'\n' ∷ []))) where
  -- For packages whose messages the format can carry and that fit the buffer, verifyAllPackages over
  -- the server, which shows `g`, has room for a call for each of them and has lost no connection, ends
  -- without an error exactly if each package is in `g`, when OK is expected, and exactly if none is,
  -- when FAIL is expected.
  pub verify_all_packages-served :
      (b : Bool) (ps : List Package) (w : World S) (g : Graph)
      → All (IsServable size) ps
      → Serves api promise size (length ps) w g
      → ((verify_all_packages (served api network) (code_of b) ps (w, fine)).1 ≡ fine)
        ↔ All (λ p. has p.name g ≡ b) ps
  verify_all_packages-served b ps w g h r =
      let named = All-weaken (IsServable size) IsNamed ps (λ p k. k.0) h in
      let (same, _) =
        verify_all_packages-Same (served api network) answer (Serves api promise size)
          (Sendable size) (less_room api network promise size delivers)
          (served-answer api network promise size delivers) (code_of b) ps 0 w g fine
          (All-weaken (IsServable size) (λ p. Sendable size (make_query_message p)) ps
            (query_message-Sendable size) h)
          (subst (λ n. Serves api promise size n w g) (omega (arith, beside-length ps 0)) r) in
      let kept = verify_all_packages-keeps b ps g fine named in
      let (there, back) = verify_all_packages-has b ps g named in
      (
        (λ k. there (λ i. (kept i, (sym same ∙ k) i))),
        λ k. same ∙ ap (λ (x : Graph × Outcome). x.1) (back k),
      )

  -- For packages whose messages the format can carry and that fit the buffer, and a graph in which
  -- packages depend on older ones and whatever depends on one of `ps` is one of `ps` and ranks below it,
  -- with all ranks below `bound`, bruteforceRemovesAllPackages over the server, which shows the graph and
  -- has room for a call for each package and round, ends without an error in at most `bound` rounds:
  -- the index shows a graph with none of `ps` then, and keeps its promise.
  pub bruteforce_removes_all_packages-served :
      (ps : AllPackages) (rank : Name → ℕ) (bound : ℕ) (w : World S) (g : Graph)
      → All (IsServable size) ps
      → AllRanked rank bound ps
      → IsRemovable ps rank g
      → Serves api promise size (bound * length ps) w g
      → (w' : World S) × (g' : Graph) × (bruteforce_removes_all_packages
            (served api network)
            bound
            ps
            w
          ≡ some (w', fine))
        × Serves api promise size 0 w' g'
        × AllHave false ps g'
  bruteforce_removes_all_packages-served ps rank bound w g h ranks r s =
      let (g', run, gone) =
        bruteforce_removes_all_packages-ends ps rank bound
          (All-weaken (IsServable size) IsNamed ps (λ p k. k.0) h) ranks g r in
      let (a, ends, both) =
        bruteforce_removes_all_packages-Ends (served api network) answer (Serves api promise size)
          (Sendable size) (less_room api network promise size delivers)
          (served-answer api network promise size delivers) ps bound 0 w g (g', fine)
          (All-weaken (IsServable size) (λ p. Sendable size (make_remove_message p)) ps
            (remove_message-Sendable size) h)
          (subst (λ n. Serves api promise size n w g)
            (omega (arith, behind_rounds-length bound ps 0)) s)
          run in
      (a.0, g', ends ∙ (λ i. some (a.0, both.0 i)), both.1, gone)
