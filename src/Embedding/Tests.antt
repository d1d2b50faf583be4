-- ===== src/Embedding/Tests.antt =====
-- An embedding host over the in-memory driver, and the theorems applied to it.
use keychain.Base.{String-Comparable, ◌≡◌, ◌↔◌, refl, some, [], ◌∷◌, ok, false}
use keychain.Memory.{Memory}
use keychain.Memory.Driver.{driver}
use keychain.Embedding
use keychain.Embedding.{System, returned, server_stopped, run, dsn, new_server}
use keychain.Embedding.Lifecycle.{Runs, Bracketed, run-ok, run-Bracketed}

-- The store can be opened, and the server is stopped but not in time.
abbrev system : System Memory
system = record {
  env = λ key. "";
  postgres = λ url. ok driver;
  listen = λ addr. ok tt;
  served = returned (some server_stopped);
  stops_in_time = false;
}

-- The order of the events, the latest first.
run_default : run system [] ≡ (
  ok tt,
  Embedding.closed_store
      ∷ Embedding.forced_stop
      ∷ Embedding.stopping_gracefully
      ∷ Embedding.listening "127.0.0.1:8080"
      ∷ Embedding.registered_reflection
      ∷ Embedding.registered_health
      ∷ Embedding.serving_status "apikey.v1.ApiKeyService"
      ∷ Embedding.serving_status ""
      ∷ Embedding.registered_service
      ∷ Embedding.opened_store Embedding.default_dsn
      ∷ [],
)
unfolding run
run_default = refl

embedded-ok_example : Runs system ↔ ((run system []).0 ≡ ok tt)
embedded-ok_example = run-ok system

embedded-Bracketed_example : Bracketed system (run system []).1
embedded-Bracketed_example = run-Bracketed system
