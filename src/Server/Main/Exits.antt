-- ===== src/Server/Main/Exits.antt =====
-- What becomes of the process.
use package_index.Base.{Bool, true, false, Option, some, ◌≡◌, refl, subst, sym}
use package_index.Index.Api.{IndexApi}
use package_index.Server.Accept.{start}
use package_index.Server.Accept.Limits.{IsLimited, Step-IsLimited, new_server-IsLimited}
use package_index.Server.Main.{
  Config, default_config, Process, running, exited, exit_error, is_negative, begin_serving,
  listen_and_serve, with_settings, main, ProcessStep, serves, returns, crashes, ProcessSteps,
  at_start, goes_on,
}

-- The process runs within the settings, or has ended with the status of an error.
abbrev pub IsSound {ℓ} : {S : Type ℓ} → Config → Process S → Type 0
IsSound c (running max s) = (max ≡ c.max_conns) × IsLimited max s
IsSound c (exited n) = n ≡ exit_error

module _ {ℓ} {S : Type ℓ} (api : IndexApi S) (c : Config) where
  begin_serving-IsSound :
      (store : S) → is_negative c.max_conns ≡ false → IsSound c (begin_serving c store)
  unfolding begin_serving
  begin_serving-IsSound store h =
      rw h (refl, new_server-IsLimited api c.max_conns _ store _ (start _))

  ProcessStep-IsSound : (p q : Process S) → ProcessStep api p q → IsSound c p → IsSound c q
  ProcessStep-IsSound _ _ (serves {max} {s} {t} step) (e, v) =
      (e, Step-IsLimited api max s t step v)
  ProcessStep-IsSound _ _ (returns h) v = refl
  ProcessStep-IsSound _ _ (crashes h) (e, v) = cc (v.alive, h)

  ProcessSteps-IsSound : (p q : Process S) → ProcessSteps api p q → IsSound c p → IsSound c q
  ProcessSteps-IsSound p _ at_start v = v
  ProcessSteps-IsSound p _ (goes_on {q} {r} before step) v =
      ProcessStep-IsSound q r step (ProcessSteps-IsSound p q before v)

  -- With settings that do not ask for a negative number of connections, whether or not the server can
  -- listen, and whatever the accepting loop and the goroutines do, in any order, the process either
  -- runs, with at most `max_conns` goroutines, none of which has panicked, or has ended with the status
  -- of an error that ListenAndServe has returned.
  pub main-IsSound :
      (parse : Config → Option Config) (listens : Bool) (store : S) (p : Process S)
      → parse default_config ≡ some c
      → is_negative c.max_conns ≡ false
      → ProcessSteps api (main parse listens store) p
      → IsSound c p
  unfolding main listen_and_serve
  main-IsSound parse listens store p e h steps = ProcessSteps-IsSound _ p steps (
      subst (λ (x : Option Config). IsSound c (with_settings x listens store)) (sym e)
        (begins listens))
    where
      begins : (b : Bool) → IsSound c (listen_and_serve c b store)
      begins true = begin_serving-IsSound store h
      begins false = refl
