-- ===== src/Embedding/Lifecycle.antt =====
-- What the embedding host leaves behind, and when it ends without an error.
use keychain.Base.{
  ◌≡◌, ◌⊎◌, ◌↔◌, refl, sym, ap, inl, inr, Bool, true, false, none, some, [], ◌∷◌, ◌++◌, Outcome, ok,
  err, Bool-cases,
}
use mathlib.Core.List.{append_assoc}
use keychain.Base.{◌>>◌, ◌∙◌}
use keychain.Base.Lists.{All, All-both}
use keychain.Store.{Err, Store}
use keychain.Embedding.{
  Event, Trace, System, Served, signalled, returned, server_stopped, other, opened_store,
  closed_store, listening, stopping_gracefully, forced_stop, address, dsn, await, graceful_stop,
  listened, serve_with, opened, new_server, register, run, registered_service, serving_status,
  registered_health, registered_reflection,
}
use keychain.Server

module _ {S : Type 0} (sys : System S) where
  -- A signal came, or Serve returned without an error or since the server was stopped.
  abbrev pub Ends : Type 0
  Ends =
      (sys.served ≡ signalled)
      ⊎ ((sys.served ≡ returned none) ⊎ (sys.served ≡ returned (some server_stopped)))

  -- The store can be opened, the address listened on, and serving ends.
  abbrev pub Runs : Type 0
  Runs = ((st : Store S) × (sys.postgres (dsn sys) ≡ ok st)) × (sys.listen address ≡ ok tt) × Ends

  graceful_stop-ok : (t : Trace) → (graceful_stop sys t).0 ≡ ok tt
  unfolding graceful_stop
  graceful_stop-ok t = elim (Bool-cases sys.stops_in_time) [
    | inl e ↦ rw (e, graceful_stop) refl
    | inr e ↦ rw (e, graceful_stop) refl
  ]

  await-ok : (t : Trace) → Ends ↔ (((await sys >> graceful_stop sys) t).0 ≡ ok tt)
  unfolding await graceful_stop
  await-ok t = (
    λ h. elim h [
      | inl e ↦ rw (e, await) (graceful_stop-ok t)
      | inr (inl e) ↦ rw (e, await) (graceful_stop-ok t)
      | inr (inr e) ↦ rw (e, await) (graceful_stop-ok t)
    ],
    by sys.served refl,
  )
    where
      by : (s : Served) → sys.served ≡ s → ((await sys >> graceful_stop sys) t).0 ≡ ok tt → Ends
      by signalled e h = inl e
      by (returned none) e h = inr (inl e)
      by (returned (some server_stopped)) e h = inr (inr e)
      by (returned (some (other x))) e h = cc (rw (e, await) at h)

  listened-ok :
      (r : Outcome Err (Unit {0})) (t : Trace)
      → ((r ≡ ok tt) × Ends) ↔ ((listened sys r t).0 ≡ ok tt)
  listened-ok (err e) t = (λ h. cc (h.0), λ h. cc h)
  listened-ok (ok u) t = (
    λ h. (await-ok (listening address ∷ t)).0 h.1,
    λ h. (refl, (await-ok (listening address ∷ t)).1 h),
  )

  opened-ok :
      (r : Outcome Err (Store S))
      → (((st : Store S) × (r ≡ ok st)) × (sys.listen address ≡ ok tt) × Ends)
        ↔ ((opened sys r []).0 ≡ ok tt)
  unfolding serve_with new_server register Server.new
  opened-ok (err e) = (λ h. cc (h.0.1), λ h. cc h)
  opened-ok (ok st) = (
    λ h. (listened-ok (sys.listen address) _).0 (h.1, h.2),
    λ h. let (l, e) = (listened-ok (sys.listen address) _).1 h in ((st, refl), l, e),
  )

  -- The run of the embedding example ends without an error exactly if its store can be opened, its
  -- address can be listened on, and a signal comes or Serve returns either without an error or with
  -- the error that the server was stopped.
  pub run-ok : Runs ↔ ((run sys []).0 ≡ ok tt)
  unfolding run
  run-ok = opened-ok (sys.postgres (dsn sys))

  -- An event that does not concern the store.
  abbrev pub is_inner : Event → Bool
  is_inner (opened_store url) = false
  is_inner closed_store = false
  is_inner _ = true

  -- Nothing happened, or the store was opened first and closed last, and neither in between.
  abbrev pub Bracketed : Trace → Type 0
  Bracketed t =
      (t ≡ [])
      ⊎ ((inner : Trace) × (t ≡ closed_store ∷ (inner ++ opened_store (dsn sys) ∷ []))
          × All (λ e. is_inner e ≡ true) inner)

  -- What was added to a trace.
  abbrev Adds : Trace → Trace → Type 0
  Adds t u = (inner : Trace) × (u ≡ inner ++ t) × All (λ e. is_inner e ≡ true) inner

  Adds-trans : (t u w : Trace) → Adds t u → Adds u w → Adds t w
  Adds-trans t u w (xs, p, h) (ys, q, k) =
      (ys ++ xs, q ∙ ap (λ t. ys ++ t) p ∙ sym (append_assoc ys xs t), All-both _ ys xs k h)

  graceful_stop-Adds : (t : Trace) → Adds t (graceful_stop sys t).1
  unfolding graceful_stop
  graceful_stop-Adds t = elim (Bool-cases sys.stops_in_time) [
    | inl e ↦ rw (e, graceful_stop) (stopping_gracefully ∷ [], refl, (refl, tt))
    | inr e ↦
        rw (e, graceful_stop) (forced_stop ∷ stopping_gracefully ∷ [], refl, (refl, (refl, tt)))
  ]

  await-Adds : (t : Trace) → Adds t ((await sys >> graceful_stop sys) t).1
  unfolding await graceful_stop
  await-Adds t = by sys.served refl
    where
      by : (s : Served) → sys.served ≡ s → Adds t ((await sys >> graceful_stop sys) t).1
      by signalled e = rw (e, await) (graceful_stop-Adds t)
      by (returned none) e = rw (e, await) (graceful_stop-Adds t)
      by (returned (some server_stopped)) e = rw (e, await) (graceful_stop-Adds t)
      by (returned (some (other x))) e = rw (e, await) ([], refl, tt)

  listened-Adds : (r : Outcome Err (Unit {0})) (t : Trace) → Adds t (listened sys r t).1
  listened-Adds (err e) t = ([], refl, tt)
  listened-Adds (ok u) t =
      Adds-trans t (listening address ∷ t) _ (listening address ∷ [], refl, (refl, tt))
        (await-Adds (listening address ∷ t))

  serve_with-Adds : (st : Store S) (t : Trace) → Adds t (serve_with sys st t).1
  unfolding serve_with new_server register Server.new
  serve_with-Adds st t =
      Adds-trans t _ _
        (
          registered_reflection
              ∷ registered_health
              ∷ serving_status "apikey.v1.ApiKeyService"
              ∷ serving_status ""
              ∷ registered_service
              ∷ [],
          refl,
          (refl, (refl, (refl, (refl, (refl, tt))))),
        )
        (listened-Adds (sys.listen address) _)

  opened-Bracketed : (r : Outcome Err (Store S)) → Bracketed (opened sys r []).1
  opened-Bracketed (err e) = inl refl
  opened-Bracketed (ok st) =
      let (inner, same, all) = serve_with-Adds st (opened_store (dsn sys) ∷ []) in
      inr (inner, ap (λ t. closed_store ∷ t) same, all)

  -- However the run of the embedding example ends, with or without an error: either nothing
  -- happened, since the store could not be opened, or the store of its connection string was opened
  -- first and closed last, and was neither opened nor closed in between.
  pub run-Bracketed : Bracketed (run sys []).1
  unfolding run
  run-Bracketed = opened-Bracketed (sys.postgres (dsn sys))
