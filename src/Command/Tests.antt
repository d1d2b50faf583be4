-- ===== src/Command/Tests.antt =====
-- A process over the in-memory driver, and the theorems on the command applied to it.
use keychain.Base.{String-Comparable, ◌≡◌, ◌↔◌, inl, refl, none, [], ◌∷◌, map, ok, false}
use keychain.Memory.{Memory}
use keychain.Memory.Driver.{driver, view}
use keychain.Memory.Invariant.{IsValid}
use keychain.Memory.Refinement.{driver-Contract}
use keychain.Memory.History.{Reach-IsValid}
use keychain.Memory.Tests.{limited_1, holding, holding_limited_1-Reach}
use keychain.Server.{World}
use keychain.Server.Verify.{verify_key, with_result}
use keychain.Server.Metering.{metered_response}
use keychain.Server.Tests.{sum, readings, asking, Usable-limited_1, IsMetered-1, given}
use keychain.Wire.{VerifyResult}
use keychain.Config
use keychain.Config.{load, validate}
use keychain.Command.Success.{Runs, serve-ok}
use keychain.Config.Tests.{urls, config}
use keychain.Command.{System, signalled, denied, serve_with_context, serve, run, Event}
use keychain.Command
use keychain.Base.Map.{get}
use keychain.Command.Lifecycle.{Released, serve_with_context-Released}
use keychain.Command.Logger.{level_name, logger_level, validate-level}
use keychain.Command.FailClosed.{fail_closed_server, fail_closed-denies}

-- Postgres can be opened, and the server does not stop in time.
abbrev system : System Memory
system = record {
  env = λ key. "";
  to_lower = λ s. s;
  urls = urls;
  memory = driver;
  postgres = λ url. ok driver;
  listen = λ addr. ok tt;
  served = signalled;
  stops_in_time = false;
}

Runs-system : Runs system (load system.to_lower system.env)
unfolding load
Runs-system = (inl refl, refl, inl refl)

serve-ok_example :
    ((validate system.urls (load system.to_lower system.env) ≡ none)
      × Runs system (load system.to_lower system.env))
    ↔ ((serve system []).0 ≡ ok tt)
serve-ok_example = serve-ok system []

-- The default command, and the order of the events, the latest first.
run_default : run system [] [] ≡ (
  ok tt,
  Command.shut_down_metrics
      ∷ Command.forced_stop
      ∷ Command.stopping_gracefully
      ∷ Command.started_metrics "0.0.0.0:9090"
      ∷ Command.listening "0.0.0.0:8080"
      ∷ [],
)
unfolding run Config.validate Config.load
run_default = refl

serve_with_context-Released_example : Released (serve_with_context system config []).1
serve_with_context-Released_example = serve_with_context-Released system config

abbrev world : World Memory (Unit {0})
world = record { stored = holding limited_1; limiter = tt }

fail_closed-denies_example :
    verify_key sum (fail_closed_server driver) readings (asking ("read" ∷ [])) world ≡ (
      ok (
          with_result
            (metered_response limited_1 (map denied limited_1.limit_refs))
            VerifyResult.rate_limited),
      world,
    )
unfolding get
fail_closed-denies_example =
    fail_closed-denies sum driver readings IsValid view driver-Contract limited_1
      (asking ("read" ∷ [])) world
      (record {
        valid = Reach-IsValid holding_limited_1-Reach;
        stored = refl;
        hash = refl;
        given = given;
      })
      Usable-limited_1 IsMetered-1

validate-level_example : level_name (logger_level config.log_level) ≡ config.log_level
unfolding Config.validate
validate-level_example = validate-level urls config refl
