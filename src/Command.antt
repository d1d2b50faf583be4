-- ===== src/Command.antt =====
-- cmd/keychain/main.go: the commands, the wiring of the store and of the rate limiter, and the life
-- of the process. What the process does to its surroundings is a trace of events, the latest first;
-- what the surroundings answer is the record `System`. Logging is left out.
mod Lifecycle
mod Success
mod FailClosed
mod Logger
mod Tests
use keychain.Base.{
  String, String-Comparable, Bool, Option, none, some, List, [], ◌∷◌, map, Outcome, ok, err, Action,
  pure, fail, ◌>>=◌, ◌>>◌, ◌==◌, ◌||◌, if◌then◌else◌, false,
}
use keychain.Base.Int.{pos}
use keychain.Store.{Err, Store, LimitRef}
use keychain.Config.{Config, ConfigError, Urls, load, validate, store_memory, store_postgres}
use keychain.Config.Redact.{redacted}
use keychain.Server.{LimitDecision, RateLimiter, Server, map_err}
use keychain.Server

pub data Event : Type 0 where
  printed_version : Event
  printed_help : Event
  printed_config : Config → Event
  opened_postgres : String → Event
  closed_postgres : Event
  listening : String → Event
  started_metrics : String → Event
  stopping_gracefully : Event
  forced_stop : Event
  shut_down_metrics : Event

pub data Failure : Type 0 where
  invalid_config : ConfigError → Failure
  unsupported_store : String → Failure
  external : Err → Failure
  within : String → Failure → Failure
  unknown_command : String → Failure

-- Which of the two cases of the select of `serveUntilDone` is taken, and what Serve returned.
pub data Served : Type 0 where
  signalled : Served
  returned : Option Err → Served

-- `memory.New` and `postgres.New` each give a store over the state `S`.
pub record System (S : Type 0) : Type 0 where
  pub env : String → String
  pub to_lower : String → String
  pub urls : Urls
  pub memory : Store S
  pub postgres : String → Outcome Err (Store S)
  pub listen : String → Outcome Err (Unit {0})
  pub served : Served
  pub stops_in_time : Bool

abbrev pub Trace : Type 0
Trace = List Event

abbrev pub Step : Type 0 → Type 0
Step A = Action Trace Failure A

abbrev pub emit : Event → Step (Unit {0})
emit e t = (ok tt, e ∷ t)

-- fmt.Errorf("<label>: %w", err)
abbrev pub labelled_by : {A : Type 0} → String → Step A → Step A
labelled_by label m t = let (r, t') = m t in (map_err (within label) r, t')

-- defer close()
abbrev pub deferred : {A : Type 0} → (Trace → Trace) → Step A → Step A
deferred close m t = let (r, t') = m t in (r, close t')

abbrev pub shutdown_metrics : Step (Unit {0})
shutdown_metrics = emit shut_down_metrics

-- `failClosedRateLimiter`
abbrev pub denied : LimitRef → LimitDecision
denied ref = record {
  limit_id = ref.limit_id;
  scope_key = ref.scope_key;
  allowed = false;
  remaining = pos 0;
  retry_after_ms = pos 0;
}

abbrev pub fail_closed : RateLimiter (Unit {0})
fail_closed = record { consume = λ refs cost actor r. (ok (map denied refs), r) }

module _ {S : Type 0} (sys : System S) where
  unfoldable pub graceful_stop : Step (Unit {0})
  graceful_stop =
      emit stopping_gracefully
      >> ((if sys.stops_in_time then pure tt else emit forced_stop) >> shutdown_metrics)

  unfoldable pub serve_until_done : Step (Unit {0})
  unfolding graceful_stop
  serve_until_done = elim sys.served [
    | signalled ↦ graceful_stop
    | returned o ↦ elim o [
      | none ↦ graceful_stop
      | some e ↦ shutdown_metrics >> fail (within "gRPC serve" (external e))
    ]
  ]

  abbrev pub close_nothing : Trace → Trace
  close_nothing t = t

  abbrev pub close_postgres : Trace → Trace
  close_postgres t = closed_postgres ∷ t

  abbrev pub opened : String → Outcome Err (Store S) → Step (Store S × (Trace → Trace))
  opened url (ok st) t = (ok (st, close_postgres), opened_postgres url ∷ t)
  opened url (err e) t = (err (external e), t)

  -- The store and what closes it.
  unfoldable pub open_store : Config → Step (Store S × (Trace → Trace))
  open_store c =
      if c.store == store_memory
      then pure (sys.memory, close_nothing)
      else if c.store == store_postgres
      then opened c.postgres_url (sys.postgres c.postgres_url)
      else fail (unsupported_store c.store)

  unfoldable pub new_server : Store S → Outcome Err (Server S (Unit {0}))
  unfolding Server.new
  new_server st = Server.new (record { store = some st; rate_limiter = some fail_closed })

  abbrev pub listened : Config → Outcome Err (Unit {0}) → Step (Unit {0})
  listened c (err e) = fail (within "listen" (external e))
  listened c (ok _) =
      emit (listening c.grpc_bind_addr)
      >> (emit (started_metrics c.metrics_bind_addr) >> serve_until_done)

  -- What `serveWithContext` does with an open store.
  unfoldable pub serve_with : Config → Store S → Step (Unit {0})
  unfolding new_server serve_until_done
  serve_with c st = elim (new_server st) [
    | err e ↦ fail (within "keychainserver.New" (external e))
    | ok kc ↦ listened c (sys.listen c.grpc_bind_addr)
  ]

  unfoldable pub serve_with_context : Config → Step (Unit {0})
  unfolding open_store serve_with
  serve_with_context c =
      labelled_by "open store" (open_store c) >>= λ o. deferred o.1 (serve_with c o.0)

  abbrev pub checked : Option ConfigError → Step (Unit {0}) → Step (Unit {0})
  checked none m = m
  checked (some e) m = fail (invalid_config e)

  unfoldable pub serve : Step (Unit {0})
  unfolding serve_with_context
  serve = let c = load sys.to_lower sys.env in checked (validate sys.urls c) (serve_with_context c)

  unfoldable pub print_config : Step (Unit {0})
  print_config =
      let c = load sys.to_lower sys.env in
      emit (printed_config (redacted sys.to_lower sys.urls c))
      >> checked (validate sys.urls c) (pure tt)

  unfoldable pub run_command : String → Step (Unit {0})
  unfolding serve print_config
  run_command name =
      if name == "serve"
      then serve
      else if name == "version"
      then emit printed_version
      else if name == "print-config"
      then print_config
      else if name == "help" || name == "-h" || name == "--help"
      then emit printed_help
      else fail (unknown_command name)

  unfoldable pub run : List String → Step (Unit {0})
  unfolding run_command
  run [] = run_command "serve"
  run (name ∷ args) = run_command name
