-- ===== src/Server/Accept/Limits.antt =====
-- What holds of the server after any number of steps of its goroutines, in any order.
use package_index.Base.{
  ℕ, suc, ◌∙◌, ◌≤◌, true, false, Option, none, some, List, ◌≡◌, ◌≢◌, refl, ap, subst, sym, length,
  ltb, arith, Bool-cases, inl, inr,
}
use package_index.Base.Choice.{bring, OneOf, bring-OneOf}
use package_index.Index.Api.{IndexApi}
use package_index.Server.Bufio.{
  BufioReaderPool, Arrival, other, eof, io, net_error, buffer_full, malformed,
}
use package_index.Server.Pool.{IsUniform}
use package_index.Server.ReadMessage.{Read, got, failed, crashed, read_message}
use package_index.Server.ReadMessage.Total.{read_message-Settles, read_message-fresh}
use package_index.Server.Serve.Ends.{turn-MovesOn}
use package_index.Server.Serve.{
  Conn, World, Status, going, closed, panicked, react, after_read, read_round, turn, first,
}
use package_index.Server.Accept.{
  Accepted, connection, temporary_error, other_error, Server, accept, after_turn, bring, run_at,
  Step, accepts, runs, Steps, start, then_step, new_server,
}

-- The channel has an element for each goroutine that runs, and no more than it has room for; the
-- pool is uniform, and no goroutine has panicked.
pub record IsLimited {ℓ} {S : Type ℓ} (max : ℕ) (s : Server S) : Type 0 where
  pub slots : s.outstanding ≡ length s.conns
  pub room : s.outstanding ≤ max
  pub uniform : IsUniform s.pool
  pub alive : s.crashed ≡ false

module _ {ℓ} {S : Type ℓ} (api : IndexApi S) where
  -- What follows a read leaves the pool alone.
  react-pool : (r : Read) (w : World S) → (react api r w).0.pool ≡ w.pool
  unfolding react
  react-pool (got m) w = refl
  react-pool (failed (io eof)) w = refl
  react-pool (failed (io (net_error true t))) w = refl
  react-pool (failed (io (net_error false true))) w = refl
  react-pool (failed (io (net_error false false))) w = refl
  react-pool (failed (io other)) w = refl
  react-pool (failed buffer_full) w = refl
  react-pool (failed (malformed e)) w = refl
  react-pool crashed w = refl

  after_read-pool :
      (o : Option (Read × List Arrival)) (w : World S) → (after_read api o w).0.pool ≡ w.pool
  unfolding after_read
  after_read-pool none w = refl
  after_read-pool (some (r, rest)) w =
      react-pool r (record w { conn = record w.conn { incoming = rest } })

  pub turn-IsUniform : (w : World S) → IsUniform w.pool → IsUniform (turn api w).0.pool
  unfolding turn read_round
  turn-IsUniform w u = elim (Bool-cases (first true w.conn.deadlines)) [
    | inl set ↦ rw set (
        subst IsUniform
          (sym
            (after_read-pool (read_message (first true w.conn.choices) w.pool w.conn.incoming).0 _))
          (read_message-Settles (first true w.conn.choices) w.pool w.conn.incoming u).1)
    | inr unset ↦ rw unset u
  ]

  -- A round leaves the size of the pool's readers.
  pub turn-buf_size :
      (w : World S) → IsUniform w.pool → (turn api w).0.pool.buf_size ≡ w.pool.buf_size
  unfolding turn read_round
  turn-buf_size w u = elim (Bool-cases (first true w.conn.deadlines)) [
    | inl set ↦ rw set (
        ap (λ (p : BufioReaderPool). p.buf_size)
          (after_read-pool (read_message (first true w.conn.choices) w.pool w.conn.incoming).0 _)
        ∙ (read_message-fresh (first true w.conn.choices) w.pool w.conn.incoming u).2)
    | inr unset ↦ rw unset refl
  ]

  accept-IsLimited :
      (max : ℕ) (a : Accepted) (s : Server S) → IsLimited max s → IsLimited max (accept max a s)
  unfolding accept
  accept-IsLimited max (connection c) s v = elim (Bool-cases (ltb s.outstanding max)) [
    | inl free ↦ rw free (record {
      slots = ap suc v.slots;
      room = ground (arith, free);
      uniform = v.uniform;
      alive = v.alive;
    })
    | inr full ↦
        rw full (record { slots = v.slots; room = v.room; uniform = v.uniform; alive = v.alive })
  ]
  accept-IsLimited max temporary_error s v = v
  accept-IsLimited max other_error s v = record {
    slots = v.slots;
    room = v.room;
    uniform = v.uniform;
    alive = v.alive;
  }

  after_turn-IsLimited :
      (max : ℕ) (rest : List Conn) (w : World S) (st : Status) (s : Server S)
      → IsLimited max s
      → length s.conns ≡ suc (length rest)
      → st ≢ panicked
      → IsUniform w.pool
      → IsLimited max (after_turn rest (w, st) s)
  unfolding after_turn
  after_turn-IsLimited max rest w going s v h ne u = record {
    slots = omega (arith, v.slots, h);
    room = v.room;
    uniform = u;
    alive = v.alive;
  }
  after_turn-IsLimited max rest w closed s v h ne u = record {
    slots = omega (arith, v.slots, h);
    room = omega (arith, v.room);
    uniform = u;
    alive = v.alive;
  }
  after_turn-IsLimited max rest w panicked s v h ne u = absurd (ne refl)

  pub turn-ne-panicked : (w : World S) → IsUniform w.pool → (turn api w).1 ≢ panicked
  turn-ne-panicked w u = elim (turn-MovesOn api w u) [
    | inl e ↦ (λ h. cc (e, h))
    | inr m ↦ (λ h. cc (m.0, h))
  ]

  run_at-IsLimited :
      (max : ℕ) (o : Option (Conn × List Conn)) (s : Server S)
      → IsLimited max s
      → OneOf (length s.conns) o
      → IsLimited max (run_at api o s)
  unfolding run_at
  run_at-IsLimited max none s v h = v
  run_at-IsLimited max (some (c, rest)) s v h =
      let w : World S = record { conn = c; store = s.store; pool = s.pool } in
      after_turn-IsLimited max rest (turn api w).0 (turn api w).1 s v h
        (turn-ne-panicked w v.uniform) (turn-IsUniform w v.uniform)

  pub Step-IsLimited :
      (max : ℕ) (s t : Server S) → Step api max s t → IsLimited max s → IsLimited max t
  Step-IsLimited max _ _ (accepts s a e) v = accept-IsLimited max a s v
  Step-IsLimited max _ _ (runs s i) v =
      run_at-IsLimited max (bring i s.conns) s v (bring-OneOf i s.conns)

  Steps-IsLimited :
      (max : ℕ) (s t : Server S) → Steps api max s t → IsLimited max s → IsLimited max t
  Steps-IsLimited max _ _ (start s) v = v
  Steps-IsLimited max _ _ (then_step s t u before last) v =
      Step-IsLimited max t u last (Steps-IsLimited max s t before v)

  -- A new server, after any steps of the accepting loop and of the goroutines, in any order and
  -- whatever arrives on the connections, runs at most `max` goroutines, one for each element of the
  -- channel, its pool is uniform, and none has panicked.
  pub new_server-IsLimited :
      (max max_message_size : ℕ) (store : S) (t : Server S)
      → Steps api max (new_server max_message_size store) t
      → IsLimited max t
  unfolding new_server
  new_server-IsLimited max size store t steps =
      Steps-IsLimited max _ t steps
        (record { slots = refl; room = omega arith; uniform = tt; alive = refl })
