-- ===== src/Server/Accept.antt =====
-- `Serve` of go/src/package-index/server/server.go: the loop that accepts connections, and the
-- goroutines that serve them, one round of `serve` at a time and in any order.
--
-- A round of `serve` is one step: it calls the index at most once, and which reader the pool gives to
-- whom makes no difference to a message.
pub mod Limits
pub mod Protocol
pub mod Refinement
pub mod Turns
use package_index.Base.{
  ℕ, zero, suc, ◌-◌, Bool, true, false, Option, none, some, List, [], ◌∷◌, ◌≡◌, if◌then◌else◌, ltb,
}
use package_index.Base.Choice.{bring}
use package_index.Index.Api.{IndexApi}
use package_index.Server.Bufio.{BufioReaderPool}
use package_index.Server.Serve.{Conn, World, Status, going, closed, panicked, turn}

-- What `AcceptTCP` returns.
pub data Accepted : Type 0 where
  connection : Conn → Accepted
  temporary_error : Accepted
  other_error : Accepted

pub record Server {ℓ} (S : Type ℓ) : Type ℓ where
  -- The number of elements in the channel `outstanding`.
  pub outstanding : ℕ
  -- The connections of the goroutines that run.
  pub conns : List Conn
  -- The connections that were closed at once.
  pub refused : List Conn
  pub store : S
  pub pool : BufioReaderPool
  -- Whether the loop still accepts.
  pub accepting : Bool
  -- Whether a goroutine has panicked, which ends the process.
  pub crashed : Bool

module _ {ℓ} {S : Type ℓ} where
  -- A server whose channel has room for `max`.
  unfoldable pub accept : ℕ → Accepted → Server S → Server S
  accept max (connection c) s =
      if ltb s.outstanding max
      then record s { outstanding = suc s.outstanding; conns = c ∷ s.conns }
      else record s { refused = c ∷ s.refused }
  accept max temporary_error s = s
  accept max other_error s = record s { accepting = false }

  -- A round's result for the goroutine whose connection stood in front of `rest`. One that has ended
  -- takes an element out of the channel.
  unfoldable pub after_turn : List Conn → World S × Status → Server S → Server S
  after_turn rest (w, going) s = record s { conns = w.conn ∷ rest; store = w.store; pool = w.pool }
  after_turn rest (w, closed) s = record s {
    outstanding = s.outstanding - 1;
    conns = rest;
    store = w.store;
    pool = w.pool;
  }
  after_turn rest (w, panicked) s = record s { crashed = true }

  unfoldable pub run_at : IndexApi S → Option (Conn × List Conn) → Server S → Server S
  run_at api none s = s
  run_at api (some (c, rest)) s =
      after_turn rest (turn api (record { conn = c; store = s.store; pool = s.pool })) s

  -- One step: the loop accepts while it runs, or the goroutine number `i` goes one round.
  pub data Step (api : IndexApi S) (max : ℕ) : Server S → Server S → Type ℓ where
    accepts : (s : Server S) (a : Accepted) → s.accepting ≡ true → Step api max s (accept max a s)
    runs : (s : Server S) (i : ℕ) → Step api max s (run_at api (bring i s.conns) s)

  -- Any number of steps.
  pub data Steps (api : IndexApi S) (max : ℕ) : Server S → Server S → Type ℓ where
    start : (s : Server S) → Steps api max s s
    then_step : (s t u : Server S) → Steps api max s t → Step api max t u → Steps api max s u

  unfoldable pub count_steps : {api : IndexApi S} {max : ℕ} {s t : Server S} → Steps api max s t → ℕ
  count_steps (start s) = 0
  count_steps (then_step s t u before last) = suc (count_steps before)

  -- `Serve` before its loop, with the index as it stands.
  unfoldable pub new_server : ℕ → S → Server S
  new_server max_message_size store = record {
    outstanding = 0;
    conns = [];
    refused = [];
    store = store;
    pool = record { buf_size = max_message_size; pool = [] };
    accepting = true;
    crashed = false;
  }
