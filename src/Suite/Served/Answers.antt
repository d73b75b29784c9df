-- ===== src/Suite/Served/Answers.antt =====
-- A message that is sent to the server is answered as by a server that keeps the protocol.
use package_index.Base.{
  ◌==◌, ℕ, suc, Bool, true, false, Option, none, some, List, [], ◌∷◌, ◌++◌, ◌≡◌, ◌∙◌, ◌⊎◌, refl, ap,
  sym, subst, length, Bytes, bytes_eq, arith, append-nil, Bool-cases, inl, inr, leb,
}
use package_index.Base.Text.{codes}
use package_index.Base.Maps.{has}
use package_index.Index.Graph.{Graph, add_package, drop_package}
use package_index.Index.{range}
use package_index.Index.Api.{IndexApi, IsIndex}
use package_index.Server.WireFormat.{Message, Parsed, returns, panics, parse_message}
use package_index.Server.Bufio.{Arrival, split_line}
use package_index.Server.ReadMessage.Framing.{Delivers}
use package_index.Server.Serve.{World, turn, ok_response, fail_response, error_response}
use package_index.Server.Serve.Session.{Line, verdict, spec_handle, reply_to, reply, Ready}
use package_index.Server.Serve.Session.Rounds.{turn-Replied}
use package_index.Suite.Client.{received, send}
use package_index.Suite.Run.Verify.{answer}
use package_index.Suite.Served.{write, first_line, read_line, served, Serves, Sendable}

-- One of the three lines that the server sends.
abbrev IsResponse : Bytes → Type 0
IsResponse b = (b ≡ ok_response) ⊎ (b ≡ fail_response) ⊎ (b ≡ error_response)

verdict-IsResponse : (v : Graph × Bool) → IsResponse (verdict v).1
verdict-IsResponse (g, true) = inl refl
verdict-IsResponse (g, false) = inr (inl refl)

spec_handle-IsResponse : (m : Message) (g : Graph) → IsResponse (spec_handle m g).1
unfolding spec_handle
spec_handle-IsResponse m g = elim (Bool-cases (m.command == codes "INDEX")) [
  | inl index ↦ rw index (verdict-IsResponse (add_package m.pkg (range m.dependencies) g))
  | inr no_index ↦ rw no_index (elim (Bool-cases (m.command == codes "REMOVE")) [
    | inl remove ↦ rw remove (verdict-IsResponse (drop_package m.pkg g))
    | inr no_remove ↦ rw no_remove (elim (Bool-cases (m.command == codes "QUERY")) [
      | inl query ↦ rw query (verdict-IsResponse (g, has m.pkg g))
      | inr no_query ↦ rw no_query (inr (inr refl))
    ])
  ])
]

reply_to-IsResponse : (p : Parsed) (g : Graph) → IsResponse (reply_to p g).1
reply_to-IsResponse (returns m none) g = spec_handle-IsResponse m g
reply_to-IsResponse (returns m (some e)) g = inr (inr refl)
reply_to-IsResponse panics g = inr (inr refl)

split_line-IsResponse : (b : Bytes) → IsResponse b → split_line b ≡ some (b, [])
unfolding split_line
split_line-IsResponse b (inl ok) = rw ok refl
split_line-IsResponse b (inr (inl fail)) = rw fail refl
split_line-IsResponse b (inr (inr error)) = rw error refl

module _ {ℓ} {S : Type ℓ} (api : IndexApi S) (network : Bytes → List Arrival)
    (promise : IsIndex api) (size : ℕ)
    (delivers : (msg : Bytes) → Delivers msg (network (msg ++ b'\n' ∷ []))) where
  -- What the client reads of a response.
  read_line_one :
      (w : World S) (resp : Bytes)
      → (turn api w).0.conn.output ≡ resp
      → IsResponse resp
      → read_line api network w
        ≡ (record (turn api w).0 { conn = record (turn api w).0.conn { output = [] } }, some resp)
  read_line_one w resp e is =
      ap (first_line api network (turn api w).0) (ap split_line e ∙ split_line-IsResponse resp is)

  pub served-answer :
      (n : ℕ) (w : World S) (g : Graph) (msg : Bytes)
      → Sendable size msg
      → Serves api promise size (suc n) w g
      → ((served api network w msg).1 ≡ (answer g msg).1)
        × Serves api promise size n (served api network w msg).0 (answer g msg).0
  unfolding served send received answer reply
  served-answer n w g msg m r =
      let l : Line = record {
        body = msg;
        pieces = network (msg ++ b'\n' ∷ []);
        delivers = delivers msg;
        no_newline = m.0;
      } in
      let w0 = (write api network w (msg ++ b'\n' ∷ [])).0 in
      let r0 : Ready api promise size (suc n) g [] (l.pieces ++ []) w0 = record {
        incoming_is = rw r.incoming_is (sym (append-nil l.pieces));
        deadlines_is = r.deadlines_is;
        writes_is = r.writes_is;
        output_is = r.output_is;
        good = r.good;
        shows = r.shows;
        uniform = r.uniform;
        sized = r.sized;
      } in
      let (goes_on, r1) = turn-Replied api promise size n g [] l [] w0 r0 in
      let fits : leb (suc (length msg)) size ≡ true = ground (arith, m.1) in
      let is : reply size msg g ≡ reply_to (parse_message (msg ++ b'\n' ∷ [])) g = rw fits refl in
      let q = reply_to (parse_message (msg ++ b'\n' ∷ [])) g in
      let heard =
        read_line_one w0 q.1 (r1.output_is ∙ ap (λ (x : Graph × Bytes). x.1) is)
          (reply_to-IsResponse (parse_message (msg ++ b'\n' ∷ [])) g) in
      (
        ap (λ (x : World S × Option Bytes). (received x).1) heard,
        subst (λ (x : World S × Option Bytes). Ready api promise size n q.0 [] [] (received x).0)
            (sym heard)
            (record {
              incoming_is = r1.incoming_is;
              deadlines_is = r1.deadlines_is;
              writes_is = r1.writes_is;
              output_is = refl;
              good = r1.good;
              shows = r1.shows ∙ ap (λ (x : Graph × Bytes). x.0) is;
              uniform = r1.uniform;
              sized = r1.sized;
            }),
      )

  pub less_room :
      (n : ℕ) (w : World S) (g : Graph)
      → Serves api promise size (suc n) w g
      → Serves api promise size n w g
  less_room n w g r = record {
    incoming_is = r.incoming_is;
    deadlines_is = r.deadlines_is;
    writes_is = r.writes_is;
    output_is = r.output_is;
    good = promise.weaken n w.store r.good;
    shows = r.shows;
    uniform = r.uniform;
    sized = r.sized;
  }
