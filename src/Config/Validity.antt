-- ===== src/Config/Validity.antt =====
-- What `Validate` accepts, and what `Load` gives it.
use keychain.Base.{
  String, String-Comparable, ◌≡◌, ◌≢◌, ◌⊎◌, ◌↔◌, inl, inr, refl, sym, ap, subst, ◌∙◌, Option, none,
  some, Outcome, ok, err, ◌==◌, eq_iff, arith, Bool-cases, equal_ne,
}
use keychain.Store.{Err}
use keychain.Config.{
  Config, ConfigError, Url, Urls, or_else, store_memory, store_postgres, load, get_env,
  select_store, check_url, validate, validate_postgres_url, validate_store, validate_log_level,
}

-- The URL parses, and its scheme and its host will do.
pub record IsPostgresUrl (urls : Urls) (raw : String) : Type 0 where
  pub url : Url
  pub parses : urls.parse raw ≡ ok url
  pub scheme : (url.scheme ≡ "postgres") ⊎ (url.scheme ≡ "postgresql")
  pub host : url.host ≢ ""

abbrev pub IsLogLevel : String → Type 0
IsLogLevel level = (level ≡ "debug") ⊎ (level ≡ "info") ⊎ (level ≡ "warn") ⊎ (level ≡ "error")

-- The memory driver, or the Postgres driver with a URL that it can use.
abbrev pub IsStore : Urls → String → String → Type 0
IsStore urls store url =
    (store ≡ store_memory) ⊎ ((store ≡ store_postgres) × (url ≢ "") × IsPostgresUrl urls url)

pub record IsValid (urls : Urls) (c : Config) : Type 0 where
  pub grpc : c.grpc_bind_addr ≢ ""
  pub metrics : c.metrics_bind_addr ≢ ""
  pub store : IsStore urls c.store c.postgres_url
  pub level : IsLogLevel c.log_level

module _ (urls : Urls) where
  IsLogLevel-validate : (level : String) → IsLogLevel level ↔ (validate_log_level urls level ≡ none)
  unfolding validate_log_level
  IsLogLevel-validate level =
      ground (
        arith,
        eq_iff level "debug",
        eq_iff level "info",
        eq_iff level "warn",
        eq_iff level "error",
      )

  check_url-ok :
      (u : Url)
      → (check_url urls (ok u) ≡ none)
        ↔ (((u.scheme ≡ "postgres") ⊎ (u.scheme ≡ "postgresql")) × (u.host ≢ ""))
  unfolding check_url
  check_url-ok u =
      ground (arith, eq_iff u.scheme "postgres", eq_iff u.scheme "postgresql", eq_iff u.host "")

  IsPostgresUrl-validate :
      (raw : String) → IsPostgresUrl urls raw ↔ (validate_postgres_url urls raw ≡ none)
  unfolding validate_postgres_url check_url
  IsPostgresUrl-validate raw = (
    λ h. rw (h.parses, check_url) ((check_url-ok h.url).1 (h.scheme, h.host)),
    parsed (urls.parse raw) refl,
  )
    where
      parsed :
          (r : Outcome Err Url)
          → urls.parse raw ≡ r
          → check_url urls (urls.parse raw) ≡ none
          → IsPostgresUrl urls raw
      parsed (err e) h v = cc (rw h at v)
      parsed (ok u) h v =
          let (scheme, host) = (check_url-ok u).0 (rw h at v) in
          record { url = u; parses = h; scheme = scheme; host = host }

  IsStore-validate :
      (c : Config) → IsStore urls c.store c.postgres_url ↔ (validate_store urls c ≡ none)
  unfolding validate_store
  IsStore-validate c =
      let (to, from) = IsPostgresUrl-validate c.postgres_url in
      (
        λ h. elim h [
          | inl e ↦ rw (e, validate_store) refl
          | inr (e, given, good) ↦
              rw (e, validate_store, equal_ne c.postgres_url "" given) (to good)
        ],
        λ v. elim (Bool-cases (c.store == store_memory)) [
          | inl hit ↦ inl ((eq_iff c.store "memory").0 hit)
          | inr miss ↦ elim (Bool-cases (c.store == store_postgres)) [
            | inl hit ↦ elim (Bool-cases (c.postgres_url == "")) [
              | inl blank ↦ cc (rw (miss, hit, blank) at v)
              | inr given ↦ inr (
                (eq_iff c.store "postgres").0 hit,
                λ e. ground (arith, eq_iff c.postgres_url ""),
                from (rw (miss, hit, given) at v),
              )
            ]
            | inr other ↦ cc (rw (miss, other) at v)
          ]
        ],
      )

  or_else-none : (o p : Option ConfigError) → or_else urls o p ≡ none → (o ≡ none) × (p ≡ none)
  or_else-none none p e = (refl, e)
  or_else-none (some x) p e = cc e

  -- Validate returns no error exactly for a configuration with both addresses, a supported store
  -- (for Postgres with a URL that parses, has one of the two schemes and a host) and one of the
  -- four log levels.
  pub validate_iff : (c : Config) → IsValid urls c ↔ (validate urls c ≡ none)
  unfolding validate
  validate_iff c =
      let (to, from) = IsStore-validate c in
      let (to', from') = IsLogLevel-validate c.log_level in
      (
        λ h.
            rw
              (
                equal_ne c.grpc_bind_addr "" h.grpc,
                equal_ne c.metrics_bind_addr "" h.metrics,
                to h.store,
              )
              (to' h.level),
        λ v. elim (Bool-cases (c.grpc_bind_addr == "")) [
          | inl blank ↦ cc (rw blank at v)
          | inr grpc ↦ elim (Bool-cases (c.metrics_bind_addr == "")) [
            | inl blank ↦ cc (rw (grpc, blank) at v)
            | inr metrics ↦
                let (first, rest) =
                  or_else-none (validate_store urls c) (validate_log_level urls c.log_level)
                    (rw (grpc, metrics) at v) in
                record {
                  grpc = λ e. ground (arith, eq_iff c.grpc_bind_addr "");
                  metrics = λ e. ground (arith, eq_iff c.metrics_bind_addr "");
                  store = from first;
                  level = from' rest;
                }
          ]
        ],
      )

get_env-filled :
    (env : String → String) (key fallback : String) → fallback ≢ "" → get_env env key fallback ≢ ""
unfolding get_env
get_env-filled env key fallback given e = ground (arith, eq_iff (env key) "")

get_env-blank : (env : String → String) (key : String) → get_env env key "" ≡ env key
unfolding get_env
get_env-blank env key = ground (arith, eq_iff (env key) "")

module _ (urls : Urls) (to_lower env : String → String) (lower : to_lower "" ≡ "")
    (unset : env "KEYCHAIN_STORE" ≡ "") where
  abbrev url : String
  url = env "KEYCHAIN_POSTGRES_URL"

  load-url : (load to_lower env).postgres_url ≡ url
  unfolding load
  load-url = get_env-blank env "KEYCHAIN_POSTGRES_URL"

  load-store : (load to_lower env).store ≡ select_store "" url
  unfolding load
  load-store =
      ap (λ store. select_store (to_lower store) (get_env env "KEYCHAIN_POSTGRES_URL" ""))
        (get_env-blank env "KEYCHAIN_STORE" ∙ unset)
      ∙ ap (λ store. select_store store (get_env env "KEYCHAIN_POSTGRES_URL" "")) lower
      ∙ ap (select_store "") (get_env-blank env "KEYCHAIN_POSTGRES_URL")

  selected : IsStore urls (select_store "" url) url ↔ ((url ≡ "") ⊎ IsPostgresUrl urls url)
  unfolding select_store
  selected = (
    λ h. elim (Bool-cases (url == "")) [
      | inl blank ↦ inl ((eq_iff url "").0 blank)
      | inr given ↦ elim (rw given at h) [ inl e ↦ cc e | inr (_, _, good) ↦ inr good ]
    ],
    λ h. elim h [
      | inl e ↦ rw e (inl refl)
      | inr good ↦ elim (Bool-cases (url == "")) [
        | inl blank ↦ rw blank (inl refl)
        | inr given ↦ rw given (inr (refl, λ e. ground (arith, eq_iff url ""), good))
      ]
    ],
  )

  -- With KEYCHAIN_STORE unset, and if ToLower keeps the empty text, what Load gives is valid
  -- exactly if KEYCHAIN_POSTGRES_URL is unset or is a usable URL, and the log level is one of the
  -- four.
  pub load-validate :
      (validate urls (load to_lower env) ≡ none)
      ↔ (((url ≡ "") ⊎ IsPostgresUrl urls url) × IsLogLevel (load to_lower env).log_level)
  unfolding load
  load-validate =
      let (to, from) = validate_iff urls (load to_lower env) in
      (
        λ v.
            let h = from v in
            (
              selected.0 (
                  subst (λ s. IsStore urls s url) load-store
                    (subst (λ u. IsStore urls (load to_lower env).store u) load-url h.store)),
              h.level,
            ),
        λ h. to (record {
          grpc = get_env-filled env "KEYCHAIN_GRPC_BIND_ADDR" "0.0.0.0:8080" (λ e. cc e);
          metrics = get_env-filled env "KEYCHAIN_METRICS_BIND_ADDR" "0.0.0.0:9090" (λ e. cc e);
          store =
              subst (λ u. IsStore urls (load to_lower env).store u) (sym load-url)
                (subst (λ s. IsStore urls s url) (sym load-store) (selected.1 h.0));
          level = h.1;
        }),
      )
