-- ===== src/Conformance/Lifecycle.antt =====
-- keychainserver/store/conformance/conformance.go: the tests that revoke and rotate keys.
use keychain.Base.{not, Bytes-Comparable, String-Comparable, ◌==◌, Action, pure}
use keychain.Store.{not_found, conflict, Store}
use keychain.Conformance.{
  ◌>>=◌, ◌>>◌, Surroundings, Failure, fatal_if, must, must_fail, ignoring, zero_key, repeat,
  new_key, seed_workspace, seed_api,
}

module _ {S : Type 0} (st : Store S) (env : Surroundings) where
  unfoldable pub key_revoke : Action S Failure (Unit {0})
  key_revoke = do
    w ← seed_workspace st env 0
    a ← seed_api st env 1 w.workspace_id
    k ←
        must "create"
          (st.create_key (env.stamps 2) (new_key a.api_id w.workspace_id "user_1" (repeat 0x22 32)))
    must "revoke" (st.revoke_key (env.stamps 3) k.key_id)
    got ← must "get after revoke" (st.get_key_by_id k.key_id)
    fatal_if "Enabled should be false after revoke" got.enabled

  unfoldable pub key_revoke_is_idempotent : Action S Failure (Unit {0})
  key_revoke_is_idempotent = do
    w ← seed_workspace st env 0
    a ← seed_api st env 1 w.workspace_id
    k ←
        ignoring zero_key
          (st.create_key (env.stamps 2) (new_key a.api_id w.workspace_id "user_1" (repeat 0x33 32)))
    must "first revoke" (st.revoke_key (env.stamps 3) k.key_id)
    must "second revoke must be idempotent" (st.revoke_key (env.stamps 4) k.key_id)

  unfoldable pub key_revoke_unknown_returns_not_found : Action S Failure (Unit {0})
  key_revoke_unknown_returns_not_found =
      must_fail "err" not_found (st.revoke_key (env.stamps 0) "key_missing")

  unfoldable pub key_rotate : Action S Failure (Unit {0})
  key_rotate = do
    w ← seed_workspace st env 0
    a ← seed_api st env 1 w.workspace_id
    let old_hash = repeat 0x44 32
    let new_hash = repeat 0x55 32
    k ←
        ignoring zero_key
          (st.create_key (env.stamps 2) (new_key a.api_id w.workspace_id "user_1" old_hash))
    rotated ← must "rotate" (st.rotate_key (env.stamps 3) k.key_id new_hash)
    fatal_if "KeyID changed across rotation" (not (rotated.key_id == k.key_id))
    fatal_if "KeyHash should be the new hash after rotation" (not (rotated.key_hash == new_hash))
    must_fail "old hash should no longer resolve" not_found (st.get_key_by_hash old_hash)
    _ ← must "new hash should resolve" (st.get_key_by_hash new_hash)
    pure tt

  unfoldable pub key_rotate_unknown_returns_not_found : Action S Failure (Unit {0})
  key_rotate_unknown_returns_not_found =
      must_fail "err" not_found (st.rotate_key (env.stamps 0) "key_missing" (repeat 0x56 32))

  unfoldable pub key_rotate_rejects_duplicate_hash : Action S Failure (Unit {0})
  key_rotate_rejects_duplicate_hash = do
    w ← seed_workspace st env 0
    a ← seed_api st env 1 w.workspace_id
    let hash1 = repeat 0x57 32
    let hash2 = repeat 0x58 32
    k ←
        must "create first"
          (st.create_key (env.stamps 2) (new_key a.api_id w.workspace_id "user_1" hash1))
    _ ←
        must "create second"
          (st.create_key (env.stamps 3) (new_key a.api_id w.workspace_id "user_2" hash2))
    must_fail "err" conflict (st.rotate_key (env.stamps 4) k.key_id hash2)
    got ← must "get after rejected rotate" (st.get_key_by_id k.key_id)
    fatal_if "rejected rotate changed the original key hash" (not (got.key_hash == hash1))
