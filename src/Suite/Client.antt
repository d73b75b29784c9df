-- ===== src/Suite/Client.antt =====
-- go/src/test-suite/client.go: a client of the server, which sends a message and reads the response to it.
-- The connection is a parameter: what writing to it, reading a line from it, setting its deadline and
-- closing it do to its state, what time it is, and whether dialling an address gives one.
pub mod Timeouts
use mathlib.Core.Option
use package_index.Base.{
  ℕ, ◌+◌, ◌*◌, Bool, Option, none, some, [], ◌∷◌, ◌++◌, Bytes, ◌==◌, bytes_eq, if◌then◌else◌,
}
use package_index.Base.Text.{codes}
use package_index.Suite.Packages.{trim_right}

pub data ResponseCode : Type 0 where
  ok fail error : ResponseCode

-- None is UNKNOWN beside an error.
unfoldable pub response_code : Bytes → Option ResponseCode
response_code line =
    let returned = trim_right b'\n' line in
    if returned == codes "OK"
    then some ok
    else if returned == codes "FAIL"
    then some fail
    else if returned == codes "ERROR"
    then some error
    else none

unfoldable pub received {ℓ} : {S : Type ℓ} → S × Option Bytes → S × Option ResponseCode
received (s, none) = (s, none)
received (s, some line) = (s, response_code line)

-- The time until a message has to be written or read, in nanoseconds.
abbrev pub timeout : ℕ
timeout = 10 * 1000000000

-- `conn.SetDeadline`, whose error is left alone.
unfoldable pub extend_timeout_for {ℓ} : {S : Type ℓ} → (S → ℕ) → (ℕ → S → S) → S → S
extend_timeout_for now set_deadline s = set_deadline (now s + timeout) s

module _ {ℓ} {S : Type ℓ} (extend : S → S) (write : S → Bytes → S × Bool)
    (read_line : S → S × Option Bytes) where
  -- `extend` is `extendTimoutFor`.
  unfoldable pub send : S → Bytes → S × Option ResponseCode
  send s msg =
      let (s', sent) = write (extend s) (msg ++ b'\n' ∷ []) in
      let result = received (read_line (extend s')) in if sent then result else (s', none)

pub record TcpPackageIndexerClient {ℓ} (S : Type ℓ) : Type ℓ where
  pub name : Bytes
  pub conn : S

-- The errors of dialling and of closing are none and false.
unfoldable pub make_tcp_package_index_client {ℓ} :
    {S : Type ℓ} → (Bytes → Option S) → Bytes → Bytes → Option (TcpPackageIndexerClient S)
make_tcp_package_index_client dial name addr =
    Option.map (λ conn. record { name = name; conn = conn }) (dial addr)

unfoldable pub close_client {ℓ} :
    {S : Type ℓ} → (S → S × Bool) → TcpPackageIndexerClient S → TcpPackageIndexerClient S × Bool
close_client close client =
    let (conn, closed) = close client.conn in (record client { conn = conn }, closed)
