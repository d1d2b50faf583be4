-- ===== src/Conformance/Keys.antt =====
-- keychainserver/store/conformance/conformance.go: the tests that create keys and look them up.
use keychain.Base.{String, not, some, [], ◌∷◌, Bytes-Comparable, String-Comparable, ◌==◌, Action}
use keychain.Store.{not_found, conflict, Store, Key, LimitRef}
use keychain.Conformance.{
  ◌>>=◌, ◌>>◌, Surroundings, Failure, KeySnapshot, fatal_if, must, must_fail, repeat, in_an_hour,
  an_hour_ago, assert_key_fields, new_key, seed_workspace, seed_api,
}

module _ {S : Type 0} (st : Store S) (env : Surroundings) where
  unfoldable pub key_create_requires_api : Action S Failure (Unit {0})
  key_create_requires_api = must_fail "err" not_found (
      st.create_key (env.stamps 0)
        (new_key "api_missing" "ws_x" "user_1" (104 ∷ 97 ∷ 115 ∷ 104 ∷ 45 ∷ 97 ∷ 98 ∷ 99 ∷ [])))

  unfoldable pub key_create_and_lookup : Action S Failure (Unit {0})
  key_create_and_lookup = do
    w ← seed_workspace st env 0
    a ← seed_api st env 1 w.workspace_id
    let hash = repeat 0xab 32
    created ←
        must "create" (st.create_key (env.stamps 2) (new_key a.api_id w.workspace_id "user_1" hash))
    fatal_if "KeyID should be assigned by the store" (created.key_id == "")
    fatal_if "KeyHash should round-trip exactly" (not (created.key_hash == hash))
    by_id ← must "GetKeyByID" (st.get_key_by_id created.key_id)
    fatal_if "GetKeyByID mismatch" (not (by_id.key_id == created.key_id))
    by_hash ← must "GetKeyByHash" (st.get_key_by_hash hash)
    fatal_if "GetKeyByHash mismatch" (not (by_hash.key_id == created.key_id))

  -- []store.LimitRef{{LimitID: "tokens", ScopeKey: "user:user_1"}}
  abbrev pub token_limit : LimitRef
  token_limit = record { limit_id = "tokens"; scope_key = "user:user_1" }

  unfoldable pub full_key : String → String → Key
  full_key api_id workspace_id = record (new_key api_id workspace_id "user_1" (repeat 0xcd 32)) {
    name = "full-key";
    permissions = "chat:read" ∷ "chat:write" ∷ [];
    limit_refs = token_limit ∷ [];
    expires_at = some (in_an_hour env.now);
    last_verified_at = some (an_hour_ago env.now);
    metadata = some (("env", "test") ∷ []);
  }

  unfoldable pub full_snapshot : KeySnapshot
  full_snapshot = record {
    hash = repeat 0xcd 32;
    permissions = "chat:read" ∷ "chat:write" ∷ [];
    limit_refs = token_limit ∷ [];
    expires_at = some (in_an_hour env.now);
    last_verified_at = some (an_hour_ago env.now);
    metadata = some (("env", "test") ∷ []);
  }

  unfoldable pub key_create_preserves_all_fields : Action S Failure (Unit {0})
  key_create_preserves_all_fields = do
    w ← seed_workspace st env 0
    a ← seed_api st env 1 w.workspace_id
    created ← must "create" (st.create_key (env.stamps 2) (full_key a.api_id w.workspace_id))
    got ← must "get" (st.get_key_by_id created.key_id)
    assert_key_fields got full_snapshot

  unfoldable pub key_get_by_hash_unknown : Action S Failure (Unit {0})
  key_get_by_hash_unknown = must_fail "err" not_found (st.get_key_by_hash (repeat 0 32))

  unfoldable pub key_get_by_id_unknown : Action S Failure (Unit {0})
  key_get_by_id_unknown = must_fail "err" not_found (st.get_key_by_id "key_missing")

  unfoldable pub key_create_rejects_duplicate_hash : Action S Failure (Unit {0})
  key_create_rejects_duplicate_hash = do
    w ← seed_workspace st env 0
    a ← seed_api st env 1 w.workspace_id
    let hash = repeat 0x11 32
    _ ←
        must "first create"
          (st.create_key (env.stamps 2) (new_key a.api_id w.workspace_id "user_1" hash))
    must_fail "err" conflict
        (st.create_key (env.stamps 3) (new_key a.api_id w.workspace_id "user_2" hash))
