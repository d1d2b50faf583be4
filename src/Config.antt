-- ===== src/Config.antt =====
-- internal/config/config.go: the configuration that the environment gives, and its validation. The
-- redaction is in Config/Redact. net/url is a parameter, as is the mapping of strings.ToLower, which
-- rests on the tables of Unicode.
pub mod Redact
pub mod Validity
pub mod Secrets
pub mod Tests
use keychain.Base.{
  String, String-Comparable, Bool, true, false, ◌||◌, Option, none, some, List, Outcome, ok, err,
  ◌==◌, if◌then◌else◌,
}
use keychain.Base.Map.{Map}
use keychain.Store.{Err}

-- Any text may come in; the two constants are the supported ones.
abbrev pub StoreDriver : Type 0
StoreDriver = String

abbrev pub store_memory : StoreDriver
store_memory = "memory"

abbrev pub store_postgres : StoreDriver
store_postgres = "postgres"

pub record Config : Type 0 where
  pub grpc_bind_addr : String
  pub metrics_bind_addr : String
  pub store : StoreDriver
  pub postgres_url : String
  pub rate_limiter_addr : String
  pub log_level : String

-- `*url.Userinfo`: the user, and a password if there is one.
pub record Userinfo : Type 0 where
  pub username : String
  pub password : Option String

-- `*url.URL`; `rest` stands for the parts that the program does not look at.
pub record Url : Type 0 where
  pub scheme : String
  pub user : Option Userinfo
  pub host : String
  pub raw_query : String
  pub rest : String

-- What the program calls of net/url: Parse, String, ParseQuery (as `u.Query` calls it) and
-- `Values.Encode`.
pub record Urls : Type 0 where
  pub parse : String → Outcome Err Url
  pub string : Url → String
  pub parse_query : String → Map String (List String)
  pub encode : Map String (List String) → String

pub data ConfigError : Type 0 where
  required : String → ConfigError
  required_for_postgres : String → ConfigError
  unsupported : String → String → ConfigError
  invalid_url : Err → ConfigError
  wrong_scheme : String → ConfigError
  missing_host : ConfigError

-- os.Getenv is `env`, which gives "" for an unset variable.
unfoldable pub get_env : (String → String) → String → String → String
get_env env key fallback = let v = env key in if v == "" then fallback else v

-- The driver when KEYCHAIN_STORE is unset.
unfoldable pub select_store : StoreDriver → String → StoreDriver
select_store store url =
    if store == "" then (if url == "" then store_memory else store_postgres) else store

unfoldable pub load : (String → String) → (String → String) → Config
unfolding get_env select_store
load to_lower env =
    let url = get_env env "KEYCHAIN_POSTGRES_URL" "" in
    record {
      grpc_bind_addr = get_env env "KEYCHAIN_GRPC_BIND_ADDR" "0.0.0.0:8080";
      metrics_bind_addr = get_env env "KEYCHAIN_METRICS_BIND_ADDR" "0.0.0.0:9090";
      store = select_store (to_lower (get_env env "KEYCHAIN_STORE" "")) url;
      postgres_url = url;
      rate_limiter_addr = get_env env "KEYCHAIN_RATELIMITER_ADDR" "";
      log_level = to_lower (get_env env "KEYCHAIN_LOG_LEVEL" "info");
    }

module _ (urls : Urls) where
  -- The scheme and the host of a URL that was parsed.
  unfoldable pub check_url : Outcome Err Url → Option ConfigError
  check_url (err e) = some (invalid_url e)
  check_url (ok u) =
      if u.scheme == "postgres" || u.scheme == "postgresql"
      then (if u.host == "" then some missing_host else none)
      else some (wrong_scheme u.scheme)

  unfoldable pub validate_postgres_url : String → Option ConfigError
  unfolding check_url
  validate_postgres_url raw = check_url (urls.parse raw)

  unfoldable pub validate_store : Config → Option ConfigError
  unfolding validate_postgres_url
  validate_store c =
      if c.store == store_memory || c.store == store_postgres
      then (if c.store == store_postgres
          then (if c.postgres_url == ""
              then some (required_for_postgres "KEYCHAIN_POSTGRES_URL")
              else validate_postgres_url c.postgres_url)
          else none)
      else some (unsupported "KEYCHAIN_STORE" c.store)

  unfoldable pub validate_log_level : String → Option ConfigError
  validate_log_level level =
      if level == "debug" || level == "info" || level == "warn" || level == "error"
      then none
      else some (unsupported "KEYCHAIN_LOG_LEVEL" level)

  -- The first error, or that of the rest.
  abbrev pub or_else : Option ConfigError → Option ConfigError → Option ConfigError
  or_else (some e) rest = some e
  or_else none rest = rest

  -- `none` is a nil error.
  unfoldable pub validate : Config → Option ConfigError
  unfolding validate_store validate_log_level
  validate c =
      if c.grpc_bind_addr == ""
      then some (required "KEYCHAIN_GRPC_BIND_ADDR")
      else if c.metrics_bind_addr == ""
      then some (required "KEYCHAIN_METRICS_BIND_ADDR")
      else or_else (validate_store c) (validate_log_level c.log_level)
