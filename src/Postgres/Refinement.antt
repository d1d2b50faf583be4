-- ===== src/Postgres/Refinement.antt =====
-- The Postgres driver of postgres.go as a `Store`, and the contract of store.go.
use keychain.Base.{String, inr, String-Comparable, ◌≡◌, ◌∙◌, sym, ap, some}
use keychain.Store.{Store, Workspace, Key, Api}
use keychain.Store.Contract.{Contract}
use keychain.Postgres.Codec.{Json, api_of, workspace_of}
use keychain.Postgres.Sql.{Pool}
use keychain.Postgres.Engine.{Columns, Tables, Engine, KeepsRefs}
use keychain.Postgres.View.{precision, read_key-some, map_row, map_row-some}
use keychain.Postgres.Reads.{key_with-hash, key_with-id}
use keychain.Postgres.Reads
use keychain.Postgres.Writes.{Valid, view}
use keychain.Postgres.Writes
use keychain.Postgres.Failures
use keychain.Postgres

abbrev pub driver_of : {D : Type 0} → Json → Pool D → Store D
driver_of json pool = record {
  create_workspace = Postgres.create_workspace json pool;
  get_workspace = Postgres.get_workspace json pool;
  create_api = Postgres.create_api json pool;
  get_api = Postgres.get_api json pool;
  create_key = Postgres.create_key json pool;
  get_key_by_id = Postgres.get_key_by_id json pool;
  get_key_by_hash = Postgres.get_key_by_hash json pool;
  revoke_key = Postgres.revoke_key json pool;
  rotate_key = Postgres.rotate_key json pool;
  list_keys = Postgres.list_keys json pool;
  touch_last_verified = Postgres.touch_last_verified json pool;
  decrement_remaining_uses = Postgres.decrement_remaining_uses json pool;
}

module _ {D : Type 0} (tables : D → Tables) (Sound : D → Type 0) (json : Json) (c : Columns)
    (pool : Pool D) where
  key_label :
      Engine tables Sound c pool
      → (d : D) → Sound d
      → (id : String) (k : Key) → (view tables Sound json c d).keys id ≡ some k
      → k.key_id ≡ id
  key_label law d s id k e =
      let (r, er, refs, p, q) = read_key-some json c ((tables d).keys id) k e in
      sym (sym (key_with-id json c r refs) ∙ ap (λ k. k.key_id) q) ∙ law.key_key d s id r er

  -- `hash_unique` of the engine, at the records that are read.
  hash_unique :
      Engine tables Sound c pool
      → (d : D) → Sound d
      → (i j : String) (k l : Key) → (view tables Sound json c d).keys i ≡ some k
      → (view tables Sound json c d).keys j ≡ some l
      → k.key_hash ≡ l.key_hash
      → i ≡ j
  hash_unique law d s i j k l e e' same =
      let (r, er, refs, _, q) = read_key-some json c ((tables d).keys i) k e in
      let (r', er', refs', _, q') = read_key-some json c ((tables d).keys j) l e' in
      law.hash_unique d s i j r r' er er' (
        sym (key_with-hash json c r refs)
        ∙ ap (λ k. k.key_hash) q
        ∙ same
        ∙ sym (ap (λ k. k.key_hash) q')
        ∙ key_with-hash json c r' refs')

  api_label :
      Engine tables Sound c pool
      → (d : D) → Sound d
      → (id : String) (a : Api) → (view tables Sound json c d).apis id ≡ some a
      → a.api_id ≡ id
  api_label law d s id a e =
      let (r, er, q) = map_row-some (api_of json) ((tables d).apis id) a e in
      sym (ap (λ a. a.api_id) q) ∙ law.api_key d s id r er

  api_parent :
      Engine tables Sound c pool
      → (d : D) → Sound d
      → (id : String) (a : Api) → (view tables Sound json c d).apis id ≡ some a
      → (w : Workspace) × ((view tables Sound json c d).workspaces a.workspace_id ≡ some w)
  api_parent law d s id a e =
      let (r, er, q) = map_row-some (api_of json) ((tables d).apis id) a e in
      let (w, ew) = law.api_references d s id r er in
      (
        workspace_of json w,
        ap (λ a. map_row (workspace_of json) ((tables d).workspaces a.workspace_id)) (sym q)
            ∙ ap (map_row (workspace_of json)) ew,
      )

  -- Over an engine that behaves as its documentation says, and if the limit references that are
  -- written are read back, the Postgres driver keeps the contract of Store/Contract in every
  -- operation but ListKeys, for texts and records that the database can hold and up to what the
  -- columns keep of an instant and of a metadata map: on every state whose tables are sound and
  -- whose references parse, each call that the contract covers has the promised effect on the three
  -- maps of the view and returns the promised record or error, and a call that fails leaves the
  -- state as it was. In one point this is less than store.go promises: RevokeKey of a revoked key
  -- is no no-op, since it sets the update to the clock, and changes nothing else. CreateKey for an
  -- unknown API with a hash in use fails with one of the two errors. The contract leaves open what
  -- a creation does under an id in use, and CreateKey for an API that exists with a workspace that
  -- does not.
  pub driver_of-Contract :
      Engine tables Sound c pool
      → KeepsRefs json c
      → Contract
          (Valid tables Sound json c)
          (view tables Sound json c)
          (precision json c)
          (driver_of json pool)
  driver_of-Contract law kept = record {
    get_workspace = λ d v. Reads.get_workspace-found json law d v.0;
    get_api = λ d v. Reads.get_api-found json law d v.0;
    get_key_by_id = λ d v. Reads.get_key_by_id-found json law d v.0 v.1;
    workspace_text = λ d v id w e.
        let (r, er, _) = map_row-some (workspace_of json) ((tables d).workspaces id) w e in
        law.workspace_text d v.0 id r er;
    api_text = λ d v id a e.
        let (r, er, _) = map_row-some (api_of json) ((tables d).apis id) a e in
        law.api_text d v.0 id r er;
    key_text = λ d v id k e.
        let (r, er, _, _, _) = read_key-some json c ((tables d).keys id) k e in
        law.key_text d v.0 id r er;
    get_key_by_hash_hit = λ d v. Reads.get_key_by_hash_hit json law d v.0;
    get_key_by_hash_miss = λ d v. Reads.get_key_by_hash_miss json law d v.0 v.1;
    hash_cases = λ d v h. Reads.hash_cases json law d v.0 h v.1;
    hash_unique = λ d v. hash_unique law d v.0;
    api_label = λ d v. api_label law d v.0;
    api_parent = λ d v. api_parent law d v.0;
    key_label = λ d v. key_label law d v.0;
    create_workspace = Writes.create_workspace-Returns tables Sound json c law kept;
    create_api = Writes.create_api-Returns tables Sound json c law kept;
    create_api_orphan = Failures.create_api_orphan tables Sound json c law;
    create_key = Writes.create_key-Returns tables Sound json c law kept;
    create_key_orphan = Failures.create_key_orphan tables Sound json c law;
    create_key_both = λ d v t k j l orphan fresh held same h.
        inr (Failures.create_key_conflict tables Sound json c law d v t k j l held same h);
    create_key_conflict = λ d v t k a w j l parent owner fresh.
        Failures.create_key_conflict tables Sound json c law d v t k j l;
    revoke_key =
        λ d v t id k e on. Writes.revoke_key-Returns tables Sound json c law kept d v t id k e;
    revoke_key_again = Writes.revoke_key_again tables Sound json c law kept;
    revoke_key_missing = Failures.revoke_key_missing tables Sound json c law;
    rotate_key = Writes.rotate_key-Returns tables Sound json c law kept;
    rotate_key_conflict = Failures.rotate_key_conflict tables Sound json c law;
    rotate_key_missing =
        λ d v t id h e held. Failures.rotate_key_missing tables Sound json c law d v t id e held h;
    touch = Writes.touch-Returns tables Sound json c law kept;
    touch_missing = Failures.touch_missing tables Sound json c law;
    decrement = Writes.decrement-Returns tables Sound json c law kept;
    decrement_unlimited = Failures.decrement_unlimited tables Sound json c law;
    decrement_depleted = Failures.decrement_depleted tables Sound json c law;
    decrement_missing = Failures.decrement_missing tables Sound json c law;
  }
