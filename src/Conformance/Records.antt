-- ===== src/Conformance/Records.antt =====
-- keychainserver/store/conformance/conformance.go: the tests of workspaces and APIs.
use keychain.Base.{not, ◌||◌, String-Comparable, ◌==◌, Action}
use keychain.Store.{not_found, Store}
use keychain.Conformance.{
  ◌>>=◌, ◌>>◌, Surroundings, Failure, fatal_if, must, must_fail, is_zero_time, new_workspace,
  new_api, seed_workspace,
}

module _ {S : Type 0} (st : Store S) (env : Surroundings) where
  unfoldable pub workspace_create_and_get : Action S Failure (Unit {0})
  workspace_create_and_get = do
    created ← must "create" (st.create_workspace (env.stamps 0) (new_workspace "acme"))
    fatal_if "WorkspaceID should be assigned by the store" (created.workspace_id == "")
    fatal_if "timestamps should be assigned by the store"
        (is_zero_time created.created_at || is_zero_time created.updated_at)
    got ← must "get" (st.get_workspace created.workspace_id)
    fatal_if "WorkspaceID mismatch" (not (got.workspace_id == created.workspace_id))
    fatal_if "Name" (not (got.name == "acme"))
    fatal_if "OwnerPrincipalID" (not (got.owner_principal_id == "user_owner"))

  unfoldable pub workspace_get_not_found : Action S Failure (Unit {0})
  workspace_get_not_found = must_fail "err" not_found (st.get_workspace "ws_missing")

  unfoldable pub api_create_requires_workspace : Action S Failure (Unit {0})
  api_create_requires_workspace =
      must_fail "err" not_found (st.create_api (env.stamps 0) (new_api "ws_missing" "prod"))

  unfoldable pub api_create_and_get : Action S Failure (Unit {0})
  api_create_and_get = do
    w ← seed_workspace st env 0
    created ← must "create" (st.create_api (env.stamps 1) (new_api w.workspace_id "prod"))
    fatal_if "APIID should be assigned by the store" (created.api_id == "")
    fatal_if "CreatedAt should be assigned by the store" (is_zero_time created.created_at)
    got ← must "get" (st.get_api created.api_id)
    fatal_if "WorkspaceID" (not (got.workspace_id == w.workspace_id))
    fatal_if "KeyPrefix" (not (got.key_prefix == "ck_test_"))

  unfoldable pub api_get_not_found : Action S Failure (Unit {0})
  api_get_not_found = must_fail "err" not_found (st.get_api "api_missing")
