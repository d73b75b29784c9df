-- ===== src/Server/Accept/Refinement.antt =====
-- The server with all its goroutines does what the protocol's machine does.
use package_index.Base.{
  ℕ, suc, ◌+◌, Option, none, some, List, [], ◌∷◌, ◌≡◌, ◌≢◌, inl, inr, refl, ap, subst, ◌∙◌, map,
  max, Bool-cases, ltb, arith,
}
use package_index.Base.Choice.{bring, mapped, bring-map}
use package_index.Index.Api.{IndexApi, IsIndex}
use package_index.Server.Pool.{IsUniform}
use package_index.Server.Serve.{Conn, World, Status, going, closed, panicked, turn}
use package_index.Server.Accept.{
  Accepted, connection, temporary_error, other_error, Server, accept, after_turn, run_at, Step,
  accepts, runs, Steps, start, then_step, count_steps,
}
use package_index.Server.Accept.Limits.{turn-IsUniform, turn-ne-panicked, turn-buf_size}
use package_index.Server.Accept.Protocol.{
  Peer, Served, Event, calls, takes_turn, SpecStep, turned_away, joins, is_gone, turns, SpecSteps,
  done, more, spec_turn, after_spec_turn,
}
use package_index.Server.Accept.Turns.{peer_of, Follows, turn-Tells}

abbrev pub caller : Accepted → Option Peer
caller (connection c) = some (peer_of c)
caller temporary_error = none
caller other_error = none

module _ {ℓ} {S : Type ℓ} {api : IndexApi S} {max_conns : ℕ} where
  abbrev pub event : {s t : Server S} → Step api max_conns s t → Event
  event (accepts s a open_still) = calls (caller a)
  event (runs s i) = takes_turn i

  -- What happens in the steps, the last first.
  unfoldable pub events : {s t : Server S} → Steps api max_conns s t → List Event
  events (start s) = []
  events (then_step s t u before last) = event last ∷ events before

module _ {ℓ} {S : Type ℓ} (api : IndexApi S) (promise : IsIndex api) where
  open promise use {Good, view, weaken}

  -- The graph in the store, and the running connections as their clients see them.
  abbrev pub observed : Server S → Served
  observed s = (view s.store, map peer_of s.conns)

  -- The pool gives readers of that size only.
  abbrev pub IsSized : ℕ → Server S → Type 0
  IsSized size s = IsUniform s.pool × (max 16 s.pool.buf_size ≡ size)

  abbrev Simulates : ℕ → ℕ → Event → Server S → Server S → Type 0
  Simulates n size e s t =
      Good n t.store × IsSized size t × SpecStep size e (observed s) (observed t)

  accept-Simulates :
      (n size max_conns : ℕ) (a : Accepted) (s : Server S)
      → Good (suc n) s.store
      → IsSized size s
      → Simulates n size (calls (caller a)) s (accept max_conns a s)
  unfolding accept
  accept-Simulates n size max_conns (connection c) s good sized =
      elim (Bool-cases (ltb s.outstanding max_conns)) [
        | inl free ↦ rw free (weaken n s.store good, sized, joins _ (peer_of c) _)
        | inr full ↦ rw full (weaken n s.store good, sized, turned_away _ _)
      ]
  accept-Simulates n size max_conns temporary_error s good sized =
      (weaken n s.store good, sized, turned_away _ _)
  accept-Simulates n size max_conns other_error s good sized =
      (weaken n s.store good, sized, turned_away _ _)

  after_turn-SpecStep :
      (size i : ℕ) (c : Conn) (rest : List Conn) (w : World S) (st : Status) (s : Server S)
      → bring i (observed s).1 ≡ some (peer_of c, map peer_of rest)
      → Follows api promise (spec_turn size (peer_of c) (view s.store)) (w, st)
      → st ≢ panicked
      → SpecStep size (takes_turn i) (observed s) (observed (after_turn rest (w, st) s))
  unfolding after_turn
  after_turn-SpecStep size i c rest w going s e f ne =
      subst (SpecStep size (takes_turn i) (observed s)) (ap (after_spec_turn (map peer_of rest)) f)
        (turns (view s.store) i _ (peer_of c) _ e)
  after_turn-SpecStep size i c rest w closed s e f ne =
      subst (SpecStep size (takes_turn i) (observed s)) (ap (after_spec_turn (map peer_of rest)) f)
        (turns (view s.store) i _ (peer_of c) _ e)
  after_turn-SpecStep size i c rest w panicked s e f ne = absurd (ne refl)

  after_turn-Good :
      (n : ℕ) (rest : List Conn) (w : World S) (st : Status) (s : Server S)
      → Good n s.store
      → Good n w.store
      → Good n (after_turn rest (w, st) s).store
  unfolding after_turn
  after_turn-Good n rest w going s old new = new
  after_turn-Good n rest w closed s old new = new
  after_turn-Good n rest w panicked s old new = old

  after_turn-IsSized :
      (size : ℕ) (rest : List Conn) (w : World S) (st : Status) (s : Server S)
      → IsSized size s
      → IsUniform w.pool
      → max 16 w.pool.buf_size ≡ size
      → IsSized size (after_turn rest (w, st) s)
  unfolding after_turn
  after_turn-IsSized size rest w going s old u e = (u, e)
  after_turn-IsSized size rest w closed s old u e = (u, e)
  after_turn-IsSized size rest w panicked s old u e = old

  run_at-Simulates :
      (n size i : ℕ) (o : Option (Conn × List Conn)) (s : Server S)
      → Good (suc n) s.store
      → IsSized size s
      → bring i s.conns ≡ o
      → Simulates n size (takes_turn i) s (run_at api o s)
  unfolding run_at
  run_at-Simulates n size i none s good sized e = (
    weaken n s.store good,
    sized,
    is_gone _ i _ (bring-map peer_of i s.conns ∙ ap (mapped peer_of) e),
  )
  run_at-Simulates n size i (some (c, rest)) s good sized e =
      let w : World S = record { conn = c; store = s.store; pool = s.pool } in
      let (good', follows) = turn-Tells api promise n w good sized.0 in
      (
        after_turn-Good n rest (turn api w).0 (turn api w).1 s (weaken n s.store good) good',
        after_turn-IsSized size rest (turn api w).0 (turn api w).1 s sized
            (turn-IsUniform api w sized.0) (ap (max 16) (turn-buf_size api w sized.0) ∙ sized.1),
        after_turn-SpecStep size i c rest (turn api w).0 (turn api w).1 s
            (bring-map peer_of i s.conns ∙ ap (mapped peer_of) e)
            (subst (λ k. Follows api promise (spec_turn k (peer_of c) (view s.store)) (turn api w))
              sized.1 follows)
            (turn-ne-panicked api w sized.0),
      )

  Step-Simulates :
      {max_conns : ℕ} {s t : Server S} (n size : ℕ) (step : Step api max_conns s t)
      → Good (suc n) s.store
      → IsSized size s
      → Simulates n size (event step) s t
  Step-Simulates n size (accepts s a open_still) good sized =
      accept-Simulates n size _ a s good sized
  Step-Simulates n size (runs s i) good sized =
      run_at-Simulates n size i (bring i s.conns) s good sized refl

  Steps-Simulates :
      {max_conns : ℕ} {s t : Server S} (n size : ℕ) (steps : Steps api max_conns s t)
      → Good (n + count_steps steps) s.store
      → IsSized size s
      → Good n t.store × IsSized size t × SpecSteps size (observed s) (events steps) (observed t)
  unfolding count_steps events
  Steps-Simulates n size (start s) good sized =
      (subst (λ k. Good k s.store) (omega arith) good, sized, done)
  Steps-Simulates n size (then_step s t u before last) good sized =
      let (good', sized', spec) =
        Steps-Simulates (suc n) size before (subst (λ k. Good k s.store) (omega arith) good)
          sized in
      let (good'', sized'', step) = Step-Simulates n size last good' sized' in
      (good'', sized'', more spec step)

  -- Over an index that keeps its promise and has room for a call for each step, and a pool with
  -- readers of one size only, any steps of the accepting loop and of the goroutines, in any order,
  -- are steps of the protocol's machine with the same callers and the same connections' turns,
  -- where a turn of a connection reads the next message from what arrives on it, by a new reader,
  -- and handles it at once on the dependency graph: the graph, and what each client has been sent
  -- and has yet to be read of it, are the machine's, whichever reads, writes and deadlines fail.
  -- The index still keeps its promise.
  pub Steps-SpecSteps :
      {max_conns : ℕ} {s t : Server S} (n : ℕ) (steps : Steps api max_conns s t)
      → Good (n + count_steps steps) s.store
      → IsUniform s.pool
      → Good n t.store × SpecSteps (max 16 s.pool.buf_size) (observed s) (events steps) (observed t)
  Steps-SpecSteps {s = s} n steps good uniform =
      let (good', _, spec) =
        Steps-Simulates n (max 16 s.pool.buf_size) steps good (uniform, refl) in
      (good', spec)
