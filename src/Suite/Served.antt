-- ===== src/Suite/Served.antt =====
-- The client of go/src/test-suite/client.go on a connection to the server: each message that it sends
-- goes through one round of the server's loop, in whatever pieces the network cuts it.
pub mod Answers
pub mod Loops
pub mod Messages
pub mod Whole
use package_index.Base.{
  ◌==◌, ℕ, suc, ◌*◌, ◌≤◌, Bool, true, false, Option, none, some, List, [], ◌∷◌, ◌++◌, ◌≡◌, ◌∙◌, ◌↔◌,
  ◌⊎◌, refl, ap, sym, subst, All, length, Bytes, Name, bytes_eq, arith, append-nil, Bool-cases, inl,
  inr, leb, All-weaken, All-append,
}
use package_index.Base.Text.{codes}
use package_index.Base.Maps.{has}
use package_index.Index.Graph.{Graph, add_package, drop_package}
use package_index.Index.{range}
use package_index.Index.Api.{IndexApi, IsIndex}
use package_index.Server.WireFormat.{Message, Parsed, returns, panics, parse_message}
use package_index.Server.Bufio.{Arrival, split_line}
use package_index.Server.ReadMessage.Framing.{NotNewline, Delivers}
use package_index.Server.Serve.{World, turn, ok_response, fail_response, error_response}
use package_index.Server.Serve.Session.{Line, verdict, spec_handle, reply_to, reply, Ready}
use package_index.Server.Serve.Session.Rounds.{turn-Replied}
use package_index.Suite.Client.{ResponseCode, received, send}
use package_index.Suite.Packages.{Package, AllPackages}
use package_index.Suite.WireFormat.{make_remove_message, make_query_message}
use package_index.Suite.WireFormat.Answers.{IsNamed}
use package_index.Suite.Run.Verify.{
  answer, code_of, verify_all_packages-has, verify_all_packages-keeps,
}
use package_index.Server.WireFormat.Grammar.{InName}
use package_index.Suite.Run.Passed.{AllHave, AllRanked}
use package_index.Suite.Run.Removal.{IsRemovable, bruteforce_removes_all_packages-ends}
use package_index.Suite.Run.Simulation.{
  beside-length, behind_rounds-length, verify_all_packages-Same,
  bruteforce_removes_all_packages-Ends,
}
use package_index.Suite.Run.{Outcome, fine, verify_all_packages, bruteforce_removes_all_packages}

module _ {ℓ} {S : Type ℓ} (api : IndexApi S) (network : Bytes → List Arrival) where
  -- The client's write, as the network brings it.
  abbrev pub write : World S → Bytes → World S × Bool
  write w msg =
      (record w { conn = record w.conn { incoming = w.conn.incoming ++ network msg } }, true)

  -- `ReadString('\n')` on what the server has sent: a line, if there is one. The reader is made for it,
  -- and what it has buffered behind the line is lost.
  abbrev pub first_line : World S → Option (Bytes × Bytes) → World S × Option Bytes
  first_line w none = (w, none)
  first_line w (some (line, rest)) = (record w { conn = record w.conn { output = [] } }, some line)

  -- The server's next round, and the client's read of what it has sent then.
  abbrev pub read_line : World S → World S × Option Bytes
  read_line w = let w' = (turn api w).0 in first_line w' (split_line w'.conn.output)

  -- The client's deadlines do not run out, and the server does not see them.
  unfoldable pub served : World S → Bytes → World S × Option ResponseCode
  served w msg = send (λ x. x) write read_line w msg

module _ {ℓ} {S : Type ℓ} (api : IndexApi S) (promise : IsIndex api) (size : ℕ) where
  -- The server shows `g` and has room for `n` more calls, and the client has read all responses.
  abbrev pub Serves : ℕ → World S → Graph → Type ℓ
  Serves n w g = Ready api promise size n g [] [] w

-- The message is a line, and fits the server's buffer.
abbrev pub Sendable : ℕ → Bytes → Type 0
Sendable size msg = All NotNewline msg × (suc (length msg) ≤ size)

-- Messages that name the package can be sent: its name is one that the format can carry, and they
-- fit the server's buffer.
abbrev pub IsServable : ℕ → Package → Type 0
IsServable size p = IsNamed p × (suc (length (make_remove_message p)) ≤ size)
