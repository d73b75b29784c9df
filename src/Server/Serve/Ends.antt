-- ===== src/Server/Serve/Ends.antt =====
-- The loop over a connection ends, whatever the client sends and whatever fails on the way.
mod Weight
unfoldable pub use Weight.{weight}
use package_index.Base.{
  ℕ, zero, suc, ◌+◌, ◌-◌, ◌≤◌, ◌<◌, Bool, true, false, Option, none, some, List, [], ◌∷◌, ◌++◌, ◌≡◌,
  ◌≢◌, ◌⊎◌, ◌∙◌, refl, sym, ap, inl, inr, length, take, drop, arith, Bytes, if◌then◌else◌, leb,
  Bool-cases, max, length-drop,
}
use Prim.Native.Nat.{suc-le-suc}
use package_index.Index.Api.{IndexApi}
use package_index.Server.Bufio.{
  ReadError, io, buffer_full, malformed, eof, net_error, other, Arrival, bytes, error, unread,
  Slice, Look, found, full, short, look, answer, stop, read_slice, BufioReaderPool,
}
use Weight.{read_message-weight}
use package_index.Server.Pool.{IsUniform}
use package_index.Server.ReadMessage.{
  Read, got, failed, crashed, discard, volume, drained, after_slice, read_message,
}
use package_index.Server.ReadMessage.Framing.{look_short}
use package_index.Server.ReadMessage.Total.{
  look-short, Settles, read_message-fresh, read_message-Settles,
}
use package_index.Server.Serve.{
  World, Status, going, closed, respond, react, after_read, read_round, turn, serve, first,
}

-- A closed connection reads as the end of the stream.
pub read_message-nil :
    (chosen : Bool) (p : BufioReaderPool)
    → IsUniform p
    → (read_message chosen p []).0 ≡ some (failed (io eof), [])
unfolding read_slice after_slice
read_message-nil chosen p u =
    (read_message-fresh chosen p [] u).0 ∙ rw (look_short (max 16 p.buf_size) [] tt (omega arith))

module _ {ℓ} {S : Type ℓ} (api : IndexApi S) where
  -- The round closes the connection, or the loop goes on with less to come.
  abbrev pub MovesOn : ℕ → World S × Status → Type 0
  MovesOn n r =
      (r.1 ≡ closed) ⊎ ((r.1 ≡ going) × (weight r.0.conn.incoming < n) × IsUniform r.0.pool)

  react-MovesOn :
      (n : ℕ) (r : Read) (w : World S)
      → r ≢ crashed
      → weight w.conn.incoming < n
      → IsUniform w.pool
      → MovesOn n (react api r w)
  unfolding react respond
  react-MovesOn n (got m) w ne h u = inr (refl, h, u)
  react-MovesOn n (failed (io eof)) w ne h u = inl refl
  react-MovesOn n (failed (io other)) w ne h u = inr (refl, h, u)
  react-MovesOn n (failed (io (net_error true x))) w ne h u = inl refl
  react-MovesOn n (failed (io (net_error false true))) w ne h u = inr (refl, h, u)
  react-MovesOn n (failed (io (net_error false false))) w ne h u = inr (refl, h, u)
  react-MovesOn n (failed buffer_full) w ne h u = inr (refl, h, u)
  react-MovesOn n (failed (malformed e)) w ne h u = inr (refl, h, u)
  react-MovesOn n crashed w ne h u = absurd (ne refl)

  after_read-MovesOn :
      (w : World S) (o : Option (Read × List Arrival)) (a : Arrival) (incoming : List Arrival)
      → Settles o
      → ((r : Read) (rest : List Arrival)
          → o ≡ some (r, rest)
          → weight rest < weight (a ∷ incoming))
      → IsUniform w.pool
      → MovesOn (weight (a ∷ incoming)) (after_read api o w)
  after_read-MovesOn w o a incoming (r, rest, e, ne) less u = rw e (
      unfold after_read in
      react-MovesOn (weight (a ∷ incoming)) r
        (record w { conn = record w.conn { incoming = rest } }) ne (less r rest e) u)

  pub after_read-eof :
      (w : World S) (o : Option (Read × List Arrival)) (rest : List Arrival)
      → o ≡ some (failed (io eof), rest)
      → (after_read api o w).1 ≡ closed
  unfolding after_read react
  after_read-eof w o rest e = rw e

  read_round-MovesOn :
      (w : World S) (incoming : List Arrival)
      → w.conn.incoming ≡ incoming
      → IsUniform w.pool
      → MovesOn (weight incoming) (read_round api w)
  unfolding read_round
  read_round-MovesOn w [] e u =
      let ch = first true w.conn.choices in
      inl (
        after_read-eof _ _ [] (
          ap (λ (x : List Arrival). (read_message ch w.pool x).0) e ∙ read_message-nil ch w.pool u))
  read_round-MovesOn w (a ∷ incoming) e u =
      let ch = first true w.conn.choices in
      let settled = read_message-Settles ch w.pool w.conn.incoming u in
      after_read-MovesOn _ (read_message ch w.pool w.conn.incoming).0 a incoming settled.0
        (λ r rest q.
          read_message-weight ch w.pool a incoming r rest u
            (ap (λ (x : List Arrival). (read_message ch w.pool x).0) (sym e) ∙ q))
        settled.1

  pub turn-MovesOn :
      (w : World S) → IsUniform w.pool → MovesOn (weight w.conn.incoming) (turn api w)
  unfolding turn
  turn-MovesOn w u = elim (Bool-cases (first true w.conn.deadlines)) [
    | inl set ↦ rw set (read_round-MovesOn _ w.conn.incoming refl u)
    | inr unset ↦ rw unset (inl refl)
  ]

  pub serve_closed :
      (fuel : ℕ) (w : World S)
      → (turn api w).1 ≡ closed
      → serve api (suc fuel) w ≡ some ((turn api w).0, closed)
  unfolding serve
  serve_closed fuel w e = rw (e, serve)

  pub serve_going :
      (fuel : ℕ) (w : World S)
      → (turn api w).1 ≡ going
      → serve api (suc fuel) w ≡ serve api fuel (turn api w).0
  unfolding serve
  serve_going fuel w e = rw (e, serve)

  -- `serve` ends, with the connection closed, whatever arrives and whatever fails, if the pool is
  -- uniform and the fuel is more than the weight of what arrives.
  pub serve-closes :
      (fuel : ℕ) (w : World S)
      → weight w.conn.incoming < fuel
      → IsUniform w.pool
      → (w' : World S) × (serve api fuel w ≡ some (w', closed))
  serve-closes zero w h u = absurd (omega arith)
  serve-closes (suc fuel) w h u = elim (turn-MovesOn w u) [
    | inl e ↦ ((turn api w).0, serve_closed fuel w e)
    | inr (e, less, u') ↦
        let (w', q) = serve-closes fuel (turn api w).0 (omega arith) u' in
        (w', serve_going fuel w e ∙ q)
  ]
