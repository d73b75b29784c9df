-- ===== src/Server/Main.antt =====
-- go/src/package-index/main.go, and ListenAndServe with its settings of
-- go/src/package-index/server/server.go: how the process starts, and how it ends.
--
-- An `int` is its bit pattern. What flag.Parse makes of the default settings and whether net.Listen
-- succeeds are arguments.
pub mod Exits
use package_index.Base.{
  ℕ, Bool, true, false, Option, none, some, Bytes, ◌^◌, ◌*◌, ◌≡◌, leb, if◌then◌else◌,
}
use package_index.Base.Int64.{int64_bound}
use package_index.Base.Text.{codes}
use package_index.Index.Api.{IndexApi}
use package_index.Server.Accept.{Server, Step, new_server}

-- The settings of `type Server`, with durations in nanoseconds.
pub record Config : Type 0 where
  pub addr : Bytes
  pub max_conns : ℕ
  pub max_message_size : ℕ
  pub conn_read_timeout : ℕ
  pub conn_write_timeout : ℕ
  pub accept_delay : ℕ
  pub conn_read_delay : ℕ

abbrev second : ℕ
second = 1000000000

abbrev pub default_config : Config
default_config = record {
  addr = codes ":8080";
  max_conns = 300;
  max_message_size = 2048;
  conn_read_timeout = 30 * second;
  conn_write_timeout = 5 * second;
  accept_delay = second;
  conn_read_delay = second;
}

-- The process: the loop of `Serve` over a channel with some room, or its exit status.
pub data Process {ℓ} (S : Type ℓ) : Type ℓ where
  running : ℕ → Server S → Process S
  exited : ℕ → Process S

-- The status of a panic, and of a command line that flag.Parse refuses.
abbrev pub exit_refused : ℕ
exit_refused = 2

-- `os.Exit(1)`, behind an error that ListenAndServe returns.
abbrev pub exit_error : ℕ
exit_error = 1

abbrev pub is_negative : ℕ → Bool
is_negative n = leb int64_bound n

module _ {ℓ} {S : Type ℓ} where
  -- `Serve` up to its loop: no channel has a negative size, and bufio takes a negative size for its
  -- least.
  unfoldable pub begin_serving : Config → S → Process S
  begin_serving c store =
      if is_negative c.max_conns
      then exited exit_refused
      else running c.max_conns
          (new_server (if is_negative c.max_message_size then 0 else c.max_message_size) store)

  unfoldable pub listen_and_serve : Config → Bool → S → Process S
  listen_and_serve c listens store = if listens then begin_serving c store else exited exit_error

  -- What follows flag.Parse.
  abbrev pub with_settings : Option Config → Bool → S → Process S
  with_settings none listens new_index = exited exit_refused
  with_settings (some c) listens new_index = listen_and_serve c listens new_index

  unfoldable pub main : (Config → Option Config) → Bool → S → Process S
  main parse listens new_index = with_settings (parse default_config) listens new_index

  -- The loop and its goroutines take a step; `Serve` returns its error, and the process ends with it;
  -- a goroutine's panic ends the process.
  pub data ProcessStep (api : IndexApi S) : Process S → Process S → Type ℓ where
    serves :
        {max : ℕ} {s t : Server S}
        → Step api max s t
        → ProcessStep api (running max s) (running max t)
    returns :
        {max : ℕ} {s : Server S}
        → s.accepting ≡ false
        → ProcessStep api (running max s) (exited exit_error)
    crashes :
        {max : ℕ} {s : Server S}
        → s.crashed ≡ true
        → ProcessStep api (running max s) (exited exit_refused)

  pub data ProcessSteps (api : IndexApi S) (p : Process S) : Process S → Type ℓ where
    at_start : ProcessSteps api p p
    goes_on : {q r : Process S} → ProcessSteps api p q → ProcessStep api q r → ProcessSteps api p r
