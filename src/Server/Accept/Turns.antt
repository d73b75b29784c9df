-- ===== src/Server/Accept/Turns.antt =====
-- One round of a goroutine is a turn of its connection.
use package_index.Base.{
  ℕ, suc, Bool, true, false, Option, none, some, List, [], sym, subst, max, ◌≡◌, inl, inr, refl, ap,
  Bytes, bytes_eq, Bool-cases,
}
use package_index.Base.Sets.{Distinct}
use package_index.Index.{range}
use package_index.Index.Graph.{Graph}
use package_index.Index.Api.{IndexApi, IsIndex}
use package_index.Server.WireFormat.{Message, Parsed, returns, panics, parse_message}
use package_index.Server.WireFormat.Grammar.{parse_message-Distinct}
use package_index.Server.Bufio.{
  ReadError, Arrival, other, eof, io, net_error, buffer_full, malformed, Slice, read_slice,
}
use package_index.Server.ReadMessage.{
  Read, got, failed, crashed, parsed, drained, after_slice, read_message,
}
use package_index.Server.Serve.{
  Conn, World, Status, going, closed, panicked, respond, react, after_read, read_round, turn, first,
  others,
}
use package_index.Server.Serve.Session.Replies.{handle-spec_handle}
use package_index.Server.Pool.{IsUniform}
use package_index.Server.ReadMessage.Total.{read_message-fresh}
use package_index.Server.Accept.Protocol.{
  Peer, saying, spec_react, after_reaction, after_reading, spec_turn,
}

-- A message that is read has a set of dependencies with no key twice.
abbrev pub IsClean : Option (Read × List Arrival) → Type 0
IsClean (some (got m, rest)) = Distinct (range m.dependencies)
IsClean (some (failed e, rest)) = Unit
IsClean (some (crashed, rest)) = Unit
IsClean none = Unit

drained-IsClean : (o : Option Slice) → IsClean (drained o)
drained-IsClean none = tt
drained-IsClean (some t) =
    elim t.err
      as (λ e. IsClean (elim e [
        | none ↦ some (failed buffer_full, t.incoming)
        | some e ↦ some (failed e, t.incoming)
      ])) [ none ↦ tt | some e ↦ tt ]

parsed-IsClean :
    (p : Parsed) (rest : List Arrival)
    → ((m : Message) → p ≡ returns m none → Distinct (range m.dependencies))
    → IsClean (some (parsed p, rest))
parsed-IsClean (returns m none) rest h = h m refl
parsed-IsClean (returns m (some e)) rest h = tt
parsed-IsClean panics rest h = tt

after_slice-IsClean :
    (size : ℕ) (s : Slice) (err : Option ReadError) → s.err ≡ err → IsClean (after_slice size s)
unfolding after_slice
after_slice-IsClean size s none e =
    rw e (parsed-IsClean (parse_message s.line) s.incoming (parse_message-Distinct s.line))
after_slice-IsClean size s (some (io x)) e = rw e tt
after_slice-IsClean size s (some (malformed x)) e = rw e tt
after_slice-IsClean size s (some buffer_full) e = rw e (drained-IsClean _)

read_message-IsClean :
    (chosen : Bool) (p : _) (incoming : List Arrival) → IsClean (read_message chosen p incoming).0
unfolding read_message
read_message-IsClean chosen p incoming = after_slice-IsClean _ _ _ refl

-- A connection as its client sees it.
abbrev pub peer_of : Conn → Peer
peer_of c = record {
  incoming = c.incoming;
  deadlines = c.deadlines;
  writes = c.writes;
  output = c.output;
}

module _ {ℓ} {S : Type ℓ} (api : IndexApi S) (promise : IsIndex api) where
  open promise use {Good, view, weaken}

  -- A round has made of the graph and the connection what the machine makes of them.
  abbrev pub Follows : Graph × Option Peer → World S × Status → Type 0
  Follows q (w, going) = q ≡ (view w.store, some (peer_of w.conn))
  Follows q (w, closed) = q ≡ (view w.store, none)
  Follows q (w, panicked) = Unit

  abbrev pub Tells : ℕ → Graph × Option Peer → World S × Status → Type 0
  Tells n q r = Good n r.0.store × Follows q r

  react-Tells :
      (n : ℕ) (r : Read) (w : World S) (rest : List Arrival)
      → Good (suc n) w.store
      → IsClean (some (r, rest))
      → Tells n (after_reaction (peer_of w.conn) (spec_react r (view w.store))) (react api r w)
  unfolding react respond
  react-Tells n (got m) w rest good d =
      let (good', e) = handle-spec_handle api promise n m w.store (view w.store) good refl d in
      (good', ap (λ (q : Graph × Bytes). after_reaction (peer_of w.conn) (saying q)) (sym e))
  react-Tells n (failed (io eof)) w rest good d = (weaken n w.store good, refl)
  react-Tells n (failed (io (net_error true t))) w rest good d = (weaken n w.store good, refl)
  react-Tells n (failed (io (net_error false true))) w rest good d = (weaken n w.store good, refl)
  react-Tells n (failed (io (net_error false false))) w rest good d = (weaken n w.store good, refl)
  react-Tells n (failed (io other)) w rest good d = (weaken n w.store good, refl)
  react-Tells n (failed buffer_full) w rest good d = (weaken n w.store good, refl)
  react-Tells n (failed (malformed e)) w rest good d = (weaken n w.store good, refl)
  react-Tells n crashed w rest good d = (weaken n w.store good, tt)

  after_read-Tells :
      (n : ℕ) (o : Option (Read × List Arrival)) (w : World S)
      → Good (suc n) w.store
      → IsClean o
      → Tells n (after_reading (peer_of w.conn) (view w.store) o) (after_read api o w)
  unfolding after_read
  after_read-Tells n none w good c = (weaken n w.store good, tt)
  after_read-Tells n (some (r, rest)) w good c =
      react-Tells n r (record w { conn = record w.conn { incoming = rest } }) rest good c

  pub turn-Tells :
      (n : ℕ) (w : World S)
      → Good (suc n) w.store
      → IsUniform w.pool
      → Tells n (spec_turn (max 16 w.pool.buf_size) (peer_of w.conn) (view w.store)) (turn api w)
  unfolding turn read_round
  turn-Tells n w good u = elim (Bool-cases (first true w.conn.deadlines)) [
    | inl set ↦
        let size = max 16 w.pool.buf_size in
        let o = after_slice size (read_slice size [] w.conn.incoming) in
        let fresh = read_message-fresh (first true w.conn.choices) w.pool w.conn.incoming u in
        let p = (read_message (first true w.conn.choices) w.pool w.conn.incoming).1 in
        let w' : World S = record w {
          conn = record w.conn {
            deadlines = others w.conn.deadlines;
            choices = others w.conn.choices;
          };
          pool = p;
        } in
        rw (set, fresh.0)
          (after_read-Tells n o w' good (
            subst IsClean fresh.0
              (read_message-IsClean (first true w.conn.choices) w.pool w.conn.incoming)))
    | inr unset ↦ rw unset (weaken n w.store good, refl)
  ]
