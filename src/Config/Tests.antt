-- ===== src/Config/Tests.antt =====
-- A small net/url, and the theorems on the configuration applied to it.
use keychain.Base.{
  String, String-Comparable, ◌≡◌, ◌⊎◌, ◌↔◌, refl, none, some, [], ◌∷◌, ◌==◌, ok, err, if◌then◌else◌,
}
use keychain.Store.{opaque}
use keychain.Config.{Config, Url, Urls, store_postgres, validate, load}
use keychain.Config.Redact.{redact_url}
use keychain.Config.Validity.{IsValid, IsPostgresUrl, IsLogLevel, validate_iff, load-validate}
use keychain.Config.Secrets.{Keeps, Scrubs, redact_url-Scrubs}

abbrev pub database : Url
database = record {
  scheme = "postgres";
  user = some (record { username = "app"; password = some "hunter2" });
  host = "db:5432";
  raw_query = "sslPassword=x";
  rest = "/keychain";
}

abbrev pub database_url : String
database_url = "postgres://app:hunter2@db:5432/keychain?sslPassword=x"

-- One URL is known, and any other text is refused.
abbrev pub urls : Urls
urls = record {
  parse =
      λ raw. if raw == database_url then ok database else err (opaque "missing protocol scheme");
  string = λ u. u.rest;
  parse_query = λ q. ("sslmode", "require" ∷ []) ∷ ("sslPassword", "x" ∷ []) ∷ [];
  encode = λ q. "";
}

abbrev lower : String → String
lower s = if s == "sslPassword" then "sslpassword" else s

-- Only the URL is set.
abbrev env : String → String
env key = if key == "KEYCHAIN_POSTGRES_URL" then database_url else ""

abbrev pub config : Config
config = record {
  grpc_bind_addr = "0.0.0.0:8080";
  metrics_bind_addr = "0.0.0.0:9090";
  store = store_postgres;
  postgres_url = database_url;
  rate_limiter_addr = "";
  log_level = "info";
}

load_env : load lower env ≡ config
unfolding load
load_env = refl

validate_iff_example : IsValid urls config ↔ (validate urls config ≡ none)
validate_iff_example = validate_iff urls config

load-validate_example : (validate urls (load lower env) ≡ none) ↔ (
    ((database_url ≡ "") ⊎ IsPostgresUrl urls database_url) × IsLogLevel (load lower env).log_level)
load-validate_example = load-validate urls lower env refl refl

redact_url-Scrubs_example :
    Keeps lower urls database_url database refl (redact_url lower urls database_url)
    ⊎ Scrubs lower urls database_url database refl (redact_url lower urls database_url)
redact_url-Scrubs_example = redact_url-Scrubs lower urls database_url database refl (λ e. cc e)

-- The marked parameter is in another case.
redact_url_secret : redact_url lower urls database_url ≡ "/keychain"
unfolding redact_url
redact_url_secret = refl
