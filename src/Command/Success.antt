-- ===== src/Command/Success.antt =====
-- When `serve` ends without an error.
use keychain.Base.{
  String-Comparable, ◌≡◌, ◌⊎◌, ◌↔◌, refl, ap, inl, inr, Option, none, some, Outcome, ok, err, ◌>>=◌,
  ◌==◌, Bool-cases, eq_iff,
}
use keychain.Store.{Err, Store}
use keychain.Config.{Config, ConfigError, load, validate, store_memory, store_postgres}
use keychain.Command.{
  System, Served, signalled, returned, Trace, graceful_stop, serve_until_done, serve_with,
  serve_with_context, serve, open_store, opened, listened, new_server, labelled_by, deferred,
  checked,
}
use keychain.Server

module _ {S : Type 0} (sys : System S) where
  -- The store of the configuration can be opened.
  abbrev pub Opens : Config → Type 0
  Opens c =
      (c.store ≡ store_memory)
      ⊎ ((c.store ≡ store_postgres) × (st : Store S) × (sys.postgres c.postgres_url ≡ ok st))

  -- A signal came, or the gRPC server returned without an error.
  abbrev pub Ends : Type 0
  Ends = (sys.served ≡ signalled) ⊎ (sys.served ≡ returned none)

  abbrev pub Runs : Config → Type 0
  Runs c = Opens c × (sys.listen c.grpc_bind_addr ≡ ok tt) × Ends

  graceful_stop-ok : (t : Trace) → (graceful_stop sys t).0 ≡ ok tt
  unfolding graceful_stop
  graceful_stop-ok t = elim (Bool-cases sys.stops_in_time) [
    | inl e ↦ rw (e, graceful_stop) refl
    | inr e ↦ rw (e, graceful_stop) refl
  ]

  serve_until_done-ok : (t : Trace) → Ends ↔ ((serve_until_done sys t).0 ≡ ok tt)
  unfolding serve_until_done
  serve_until_done-ok t = (
    λ h. elim h [
      | inl e ↦ rw (e, serve_until_done) (graceful_stop-ok t)
      | inr e ↦ rw (e, serve_until_done) (graceful_stop-ok t)
    ],
    by sys.served refl,
  )
    where
      by : (s : Served) → sys.served ≡ s → (serve_until_done sys t).0 ≡ ok tt → Ends
      by signalled e h = inl e
      by (returned none) e h = inr e
      by (returned (some x)) e h = cc (rw (e, serve_until_done) at h)

  serve_with-ok :
      (c : Config) (st : Store S) (t : Trace)
      → ((sys.listen c.grpc_bind_addr ≡ ok tt) × Ends) ↔ ((serve_with sys c st t).0 ≡ ok tt)
  unfolding serve_with new_server Server.new
  serve_with-ok c st t =
      (λ h. rw h.0 ((serve_until_done-ok _).0 h.1), by (sys.listen c.grpc_bind_addr) refl)
    where
      by :
          (r : Outcome Err (Unit {0}))
          → sys.listen c.grpc_bind_addr ≡ r
          → (listened sys c r t).0 ≡ ok tt
          → (sys.listen c.grpc_bind_addr ≡ ok tt) × Ends
      by (ok _) e h = (e, (serve_until_done-ok _).1 h)
      by (err x) e h = cc h

  with_postgres-ok :
      (c : Config) (r : Outcome Err (Store S)) (t : Trace)
      → ((labelled_by "open store" (opened sys c.postgres_url r) >>= λ o.
            deferred o.1 (serve_with sys c o.0))
          t).0
        ≡ ok tt
      → ((st : Store S) × (r ≡ ok st)) × (sys.listen c.grpc_bind_addr ≡ ok tt) × Ends
  with_postgres-ok c (ok st) t h = let (a, b) = (serve_with-ok c st _).1 h in ((st, refl), a, b)
  with_postgres-ok c (err e) t h = cc h

  serve_with_context-ok :
      (c : Config) (t : Trace) → Runs c ↔ ((serve_with_context sys c t).0 ≡ ok tt)
  unfolding serve_with_context open_store
  serve_with_context-ok c t = (
    λ h. elim h.0 [
      | inl e ↦
          rw (ap (λ s. s == store_memory) e, serve_with_context)
            ((serve_with-ok c sys.memory t).0 (h.1, h.2))
      | inr (e, st, p) ↦
          rw (ap (λ s. s == store_memory) e, ap (λ s. s == store_postgres) e, serve_with_context, p)
            ((serve_with-ok c st _).0 (h.1, h.2))
    ],
    λ h. elim (Bool-cases (c.store == store_memory)) [
      | inl hit ↦
          let (a, b) = (serve_with-ok c sys.memory t).1 (rw (hit, serve_with_context) at h) in
          (inl ((eq_iff c.store "memory").0 hit), a, b)
      | inr miss ↦ elim (Bool-cases (c.store == store_postgres)) [
        | inl hit ↦
            let ((st, p), a, b) =
              with_postgres-ok c (sys.postgres c.postgres_url) t
                (rw (miss, hit, serve_with_context) at h) in
            (inr ((eq_iff c.store "postgres").0 hit, st, p), a, b)
        | inr other ↦ cc (rw (miss, other, serve_with_context) at h)
      ]
    ],
  )

  -- Serve ends without an error exactly if the configuration that Load gives is valid, its store
  -- can be opened, its address can be listened at, and the gRPC server is ended by a signal or
  -- returns without an error.
  pub serve-ok :
      (t : Trace)
      → ((validate sys.urls (load sys.to_lower sys.env) ≡ none) × Runs (load sys.to_lower sys.env))
        ↔ ((serve sys t).0 ≡ ok tt)
  unfolding serve
  serve-ok t = (
    λ h. rw h.0 ((serve_with_context-ok (load sys.to_lower sys.env) t).0 h.1),
    by (validate sys.urls (load sys.to_lower sys.env)) refl,
  )
    where
      by :
          (o : Option ConfigError)
          → validate sys.urls (load sys.to_lower sys.env) ≡ o
          → (checked sys o (serve_with_context sys (load sys.to_lower sys.env)) t).0 ≡ ok tt
          → (validate sys.urls (load sys.to_lower sys.env) ≡ none)
            × Runs (load sys.to_lower sys.env)
      by none e h = (e, (serve_with_context-ok (load sys.to_lower sys.env) t).1 h)
      by (some x) e h = cc h
