-- ===== src/Suite/Client/Timeouts.antt =====
-- The deadlines of a client's reads and writes.
use package_index.Base.{ℕ, ◌+◌, ◌*◌, Bool, Option, [], ◌∷◌, ◌++◌, ◌≡◌, refl, ap, sym, ◌∙◌, Bytes}
use package_index.Suite.Client.{timeout, extend_timeout_for, send}

module _ {ℓ} {S : Type ℓ} (now : S → ℕ) (deadline : S → ℕ) (set_deadline : ℕ → S → S)
    (write write' : S → Bytes → S × Bool) (read_line read_line' : S → S × Option Bytes) where
  -- The client waits for at most ten seconds.
  abbrev pub IsTimed : S → Type 0
  IsTimed s = deadline s ≡ now s + 10 * 1000000000

  extend-IsTimed :
      ((t : ℕ) (s : S) → deadline (set_deadline t s) ≡ t)
      → ((t : ℕ) (s : S) → now (set_deadline t s) ≡ now s)
      → (s : S) → IsTimed (extend_timeout_for now set_deadline s)
  unfolding extend_timeout_for
  extend-IsTimed sets same s =
      sets (now s + timeout) s
      ∙ ap (λ (n : ℕ). n + 10 * 1000000000) (sym (same (now s + timeout) s))

  -- On a connection whose deadline is what it has been set to, where setting it takes no time, Send
  -- writes and reads only where the deadline is ten seconds ahead: with another connection that writes and
  -- reads the same in such states it gives the same result.
  pub send-IsTimed :
      ((t : ℕ) (s : S) → deadline (set_deadline t s) ≡ t)
      → ((t : ℕ) (s : S) → now (set_deadline t s) ≡ now s)
      → ((s : S) (msg : Bytes) → IsTimed s → write s msg ≡ write' s msg)
      → ((s : S) → IsTimed s → read_line s ≡ read_line' s)
      → (s : S) (msg : Bytes)
      → send (extend_timeout_for now set_deadline) write read_line s msg
        ≡ send (extend_timeout_for now set_deadline) write' read_line' s msg
  unfolding send
  send-IsTimed sets same writes reads s msg =
      rw
        (
          writes (extend_timeout_for now set_deadline s) (msg ++ b'\n' ∷ [])
              (extend-IsTimed sets same s),
          reads
              (extend_timeout_for now set_deadline
                (write' (extend_timeout_for now set_deadline s) (msg ++ b'\n' ∷ [])).0)
              (extend-IsTimed sets same
                (write' (extend_timeout_for now set_deadline s) (msg ++ b'\n' ∷ [])).0),
        )
        refl
