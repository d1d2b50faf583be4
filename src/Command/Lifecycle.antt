-- ===== src/Command/Lifecycle.antt =====
-- What `serveWithContext` leaves behind, however it ends.
use keychain.Base.{
  ℕ, suc, ◌+◌, String, ◌≡◌, ◌⊎◌, refl, sym, ◌∙◌, Bool, true, false, none, some, [], ◌∷◌, Outcome,
  ok, err, if◌then◌else◌, arith, ◌==◌, String-Comparable, Bool-cases, inl, inr, ◌>>=◌,
}
use keychain.Store.{Err, Store}
use keychain.Config.{Config, store_memory, store_postgres}
use keychain.Command.{
  Event, opened_postgres, closed_postgres, listening, started_metrics, shut_down_metrics, Trace,
  System, Served, signalled, returned, serve_with, serve_with_context, open_store, serve_until_done,
  graceful_stop, listened, opened, new_server, labelled_by, deferred,
}
use keychain.Server

-- How often an event of a kind happened.
abbrev pub count : (Event → Bool) → Trace → ℕ
count p [] = 0
count p (e ∷ t) = if p e then suc (count p t) else count p t

abbrev pub is_open : Event → Bool
is_open (opened_postgres url) = true
is_open _ = false

abbrev pub is_close : Event → Bool
is_close closed_postgres = true
is_close _ = false

abbrev pub is_start : Event → Bool
is_start (started_metrics addr) = true
is_start _ = false

abbrev pub is_shutdown : Event → Bool
is_shutdown shut_down_metrics = true
is_shutdown _ = false

-- From `t` to `u` no store was opened or closed, and every metrics server that was started was shut
-- down.
pub record Quiet (t u : Trace) : Type 0 where
  pub opens : count is_open u ≡ count is_open t
  pub closes : count is_close u ≡ count is_close t
  pub metrics : count is_start u + count is_shutdown t ≡ count is_shutdown u + count is_start t

-- A store that was opened has been closed, as the last thing that happened, and no other has; each
-- metrics server that was started has been shut down.
pub record Released (t : Trace) : Type 0 where
  pub stores : count is_close t ≡ count is_open t
  pub metrics : count is_shutdown t ≡ count is_start t
  pub last :
      (count is_open t ≡ 0)
      ⊎ ((rest : Trace) × (t ≡ closed_postgres ∷ rest) × (count is_close rest ≡ 0))

module _ {S : Type 0} (sys : System S) where
  graceful_stop-Quiet :
      (a : String) (b : String) (t : Trace)
      → Quiet t (graceful_stop sys (started_metrics a ∷ listening b ∷ t)).1
  unfolding graceful_stop
  graceful_stop-Quiet a b t = elim (Bool-cases sys.stops_in_time) [
    | inl e ↦ rw (e, graceful_stop) (record { opens = refl; closes = refl; metrics = omega arith })
    | inr e ↦ rw (e, graceful_stop) (record { opens = refl; closes = refl; metrics = omega arith })
  ]

  serve_until_done-Quiet :
      (a : String) (b : String) (t : Trace)
      → Quiet t (serve_until_done sys (started_metrics a ∷ listening b ∷ t)).1
  unfolding serve_until_done
  serve_until_done-Quiet a b t = by sys.served refl
    where
      by :
          (s : Served)
          → sys.served ≡ s
          → Quiet t (serve_until_done sys (started_metrics a ∷ listening b ∷ t)).1
      by signalled e = rw (e, serve_until_done) (graceful_stop-Quiet a b t)
      by (returned none) e = rw (e, serve_until_done) (graceful_stop-Quiet a b t)
      by (returned (some x)) e =
          rw (e, serve_until_done) (record { opens = refl; closes = refl; metrics = omega arith })

  serve_with-Quiet : (c : Config) (st : Store S) (t : Trace) → Quiet t (serve_with sys c st t).1
  unfolding serve_with new_server Server.new
  serve_with-Quiet c st t = by (sys.listen c.grpc_bind_addr)
    where
      by : (r : Outcome Err (Unit {0})) → Quiet t (listened sys c r t).1
      by (err e) = record { opens = refl; closes = refl; metrics = omega arith }
      by (ok _) = serve_until_done-Quiet c.metrics_bind_addr c.grpc_bind_addr t

  with_postgres-Released :
      (c : Config) (r : Outcome Err (Store S))
      → Released
          ((labelled_by "open store" (opened sys c.postgres_url r) >>= λ o.
              deferred o.1 (serve_with sys c o.0))
            []).1
  with_postgres-Released c (err e) = record { stores = refl; metrics = refl; last = inl refl }
  with_postgres-Released c (ok st) =
      let q = serve_with-Quiet c st (opened_postgres c.postgres_url ∷ []) in
      record {
        stores = omega (arith, q.opens, q.closes);
        metrics = omega (arith, q.metrics);
        last = inr (_, refl, q.closes);
      }

  -- However serveWithContext ends, with or without an error: a store that was opened has been
  -- closed, as the last thing that happened, and no other has; each metrics server that was started
  -- has been shut down.
  pub serve_with_context-Released : (c : Config) → Released (serve_with_context sys c []).1
  unfolding serve_with_context open_store
  serve_with_context-Released c = elim (Bool-cases (c.store == store_memory)) [
    | inl e ↦
        let q = serve_with-Quiet c sys.memory [] in
        rw (e, serve_with_context)
          (record {
            stores = q.closes ∙ sym q.opens;
            metrics = omega (arith, q.metrics);
            last = inl q.opens;
          })
    | inr e ↦ elim (Bool-cases (c.store == store_postgres)) [
      | inl e' ↦
          rw (e, e', serve_with_context) (with_postgres-Released c (sys.postgres c.postgres_url))
      | inr e' ↦
          rw (e, e', serve_with_context) (record { stores = refl; metrics = refl; last = inl refl })
    ]
  ]
