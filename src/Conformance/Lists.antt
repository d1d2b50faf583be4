-- ===== src/Conformance/Lists.antt =====
-- keychainserver/store/conformance/conformance.go: the tests of ListKeys.
use keychain.Base.{
  ℕ, String, not, ◌||◌, none, some, List, [], ◌∷◌, String-Comparable, ◌==◌, nat_eq, Action, pure,
  fail,
}
use keychain.Base.Int.{pos}
use keychain.Base.Lists.{length, get_elem?}
use keychain.Store.{Store, Api, ListKeysOpts}
use keychain.Conformance.{
  ◌>>=◌, ◌>>◌, Surroundings, Failure, fatal_if, must, ignoring, zero_key, repeat, new_api, new_key,
  assert_key_fields, seed_workspace, seed_api,
}
use keychain.Conformance.Keys.{full_key, full_snapshot}

-- store.API{}
abbrev pub zero_api : Api
zero_api = record (new_api "" "") { key_prefix = "" }

-- store.ListKeysOpts{…}
abbrev pub options : String → String → ℕ → String → ListKeysOpts
options api_id owner size token = record {
  api_id = api_id;
  owner_principal_id = owner;
  page_size = pos size;
  page_token = token;
}

module _ {S A : Type 0} where
  -- xs[i], which panics out of range
  unfoldable pub index : List A → ℕ → Action S Failure A
  index xs i = elim (get_elem? xs i) [ none ↦ fail "index out of range" | some x ↦ pure x ]

  -- for _, x := range xs
  unfoldable pub each : List A → (A → Action S Failure (Unit {0})) → Action S Failure (Unit {0})
  each [] f = pure tt
  each (x ∷ xs) f = f x >> each xs f

module _ {S : Type 0} (st : Store S) (env : Surroundings) where
  unfoldable pub key_list_preserves_all_fields : Action S Failure (Unit {0})
  key_list_preserves_all_fields = do
    w ← seed_workspace st env 0
    a ← seed_api st env 1 w.workspace_id
    _ ← must "create" (st.create_key (env.stamps 2) (full_key st env a.api_id w.workspace_id))
    res ← must "list" (st.list_keys (options a.api_id "" 10 ""))
    fatal_if "list returned" (not (nat_eq (length res.keys) 1))
    k ← index res.keys 0
    assert_key_fields k (full_snapshot st env)

  unfoldable pub key_list_by_api : Action S Failure (Unit {0})
  key_list_by_api = do
    w ← seed_workspace st env 0
    a1 ← seed_api st env 1 w.workspace_id
    a2 ← ignoring zero_api (st.create_api (env.stamps 2) (new_api w.workspace_id "staging"))
    _ ←
        ignoring zero_key (
          st.create_key (env.stamps 3) (new_key a1.api_id w.workspace_id "user_1" (repeat 0x60 32)))
    _ ←
        ignoring zero_key (
          st.create_key (env.stamps 4) (new_key a1.api_id w.workspace_id "user_2" (repeat 0x61 32)))
    _ ←
        ignoring zero_key (
          st.create_key (env.stamps 5) (new_key a2.api_id w.workspace_id "user_1" (repeat 0x62 32)))
    res ← must "list" (st.list_keys (options a1.api_id "" 100 ""))
    fatal_if "keys for api1" (not (nat_eq (length res.keys) 2))
    each res.keys λ k. fatal_if "list returned a key from api" (not (k.api_id == a1.api_id))

  unfoldable pub key_list_filter_by_owner : Action S Failure (Unit {0})
  key_list_filter_by_owner = do
    w ← seed_workspace st env 0
    a ← seed_api st env 1 w.workspace_id
    _ ←
        ignoring zero_key
          (st.create_key (env.stamps 2) (new_key a.api_id w.workspace_id "user_1" (repeat 0x70 32)))
    _ ←
        ignoring zero_key
          (st.create_key (env.stamps 3) (new_key a.api_id w.workspace_id "user_2" (repeat 0x71 32)))
    _ ←
        ignoring zero_key
          (st.create_key (env.stamps 4) (new_key a.api_id w.workspace_id "user_1" (repeat 0x72 32)))
    res ← must "list" (st.list_keys (options a.api_id "user_1" 100 ""))
    fatal_if "keys for user_1" (not (nat_eq (length res.keys) 2))
    each res.keys λ k. fatal_if "filter leaked" (not (k.owner_principal_id == "user_1"))

  unfoldable pub key_list_unknown_api_is_empty : Action S Failure (Unit {0})
  key_list_unknown_api_is_empty = do
    res ← must "list" (st.list_keys (options "api_missing" "" 10 ""))
    fatal_if "want empty result"
        (not (nat_eq (length res.keys) 0) || not (res.next_page_token == ""))
