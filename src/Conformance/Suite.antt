-- ===== src/Conformance/Suite.antt =====
-- Run of keychainserver/store/conformance/conformance.go: the subtests, each on a store of its own.
use keychain.Base.{String, List, [], ◌∷◌, ◌++◌, Outcome, ok, err, Action}
use keychain.Store.{Store}
use keychain.Conformance.{Surroundings, Failure}
use keychain.Conformance.Records.{
  workspace_create_and_get, workspace_get_not_found, api_create_requires_workspace,
  api_create_and_get, api_get_not_found,
}
use keychain.Conformance.Keys.{
  key_create_requires_api, key_create_and_lookup, key_create_preserves_all_fields,
  key_get_by_hash_unknown, key_get_by_id_unknown, key_create_rejects_duplicate_hash,
}
use keychain.Conformance.Lists.{
  key_list_preserves_all_fields, key_list_by_api, key_list_filter_by_owner,
  key_list_unknown_api_is_empty,
}
use keychain.Conformance.Lifecycle.{
  key_revoke, key_revoke_is_idempotent, key_revoke_unknown_returns_not_found, key_rotate,
  key_rotate_unknown_returns_not_found, key_rotate_rejects_duplicate_hash,
}
use keychain.Conformance.Pages.{key_list_paginates, key_list_defaults_page_size}
use keychain.Conformance.Uses.{
  key_touch_last_verified, key_touch_last_verified_unknown_returns_not_found,
  key_decrement_remaining_uses, key_decrement_unlimited_is_noop,
  key_decrement_unknown_returns_not_found,
}

-- The name of the subtest, if it failed.
abbrev failed : String → Outcome Failure (Unit {0}) → List String
failed name (ok u) = []
failed name (err message) = name ∷ []

module _ {S : Type 0} where
  unfoldable pub run_tests :
      (String → S) → List (String × Action S Failure (Unit {0})) → List String
  run_tests new_store [] = []
  run_tests new_store ((name, test) ∷ tests) =
      failed name (test (new_store name)).0 ++ run_tests new_store tests

  -- The subtests that are modelled, and what each reads, by its name.
  unfoldable pub tests :
      Store S → (String → Surroundings) → List (String × Action S Failure (Unit {0}))
  tests st envs =
      ("WorkspaceCreateAndGet", workspace_create_and_get st (envs "WorkspaceCreateAndGet"))
      ∷ ("WorkspaceGetNotFound", workspace_get_not_found st (envs "WorkspaceGetNotFound"))
      ∷ (
        "ApiCreateRequiresWorkspace",
        api_create_requires_workspace st (envs "ApiCreateRequiresWorkspace"),
      )
      ∷ ("ApiCreateAndGet", api_create_and_get st (envs "ApiCreateAndGet"))
      ∷ ("ApiGetNotFound", api_get_not_found st (envs "ApiGetNotFound"))
      ∷ ("KeyCreateRequiresApi", key_create_requires_api st (envs "KeyCreateRequiresApi"))
      ∷ ("KeyCreateAndLookup", key_create_and_lookup st (envs "KeyCreateAndLookup"))
      ∷ (
        "KeyCreatePreservesAllFields",
        key_create_preserves_all_fields st (envs "KeyCreatePreservesAllFields"),
      )
      ∷ (
        "KeyListPreservesAllFields",
        key_list_preserves_all_fields st (envs "KeyListPreservesAllFields"),
      )
      ∷ ("KeyGetByHashUnknown", key_get_by_hash_unknown st (envs "KeyGetByHashUnknown"))
      ∷ ("KeyGetByIDUnknown", key_get_by_id_unknown st (envs "KeyGetByIDUnknown"))
      ∷ (
        "KeyCreateRejectsDuplicateHash",
        key_create_rejects_duplicate_hash st (envs "KeyCreateRejectsDuplicateHash"),
      )
      ∷ ("KeyRevoke", key_revoke st (envs "KeyRevoke"))
      ∷ ("KeyRevokeIsIdempotent", key_revoke_is_idempotent st (envs "KeyRevokeIsIdempotent"))
      ∷ (
        "KeyRevokeUnknownReturnsNotFound",
        key_revoke_unknown_returns_not_found st (envs "KeyRevokeUnknownReturnsNotFound"),
      )
      ∷ ("KeyRotate", key_rotate st (envs "KeyRotate"))
      ∷ (
        "KeyRotateUnknownReturnsNotFound",
        key_rotate_unknown_returns_not_found st (envs "KeyRotateUnknownReturnsNotFound"),
      )
      ∷ (
        "KeyRotateRejectsDuplicateHash",
        key_rotate_rejects_duplicate_hash st (envs "KeyRotateRejectsDuplicateHash"),
      )
      ∷ ("KeyListByApi", key_list_by_api st (envs "KeyListByApi"))
      ∷ ("KeyListFilterByOwner", key_list_filter_by_owner st (envs "KeyListFilterByOwner"))
      ∷ ("KeyListPaginates", key_list_paginates st (envs "KeyListPaginates"))
      ∷ ("KeyListDefaultsPageSize", key_list_defaults_page_size st (envs "KeyListDefaultsPageSize"))
      ∷ (
        "KeyListUnknownApiIsEmpty",
        key_list_unknown_api_is_empty st (envs "KeyListUnknownApiIsEmpty"),
      )
      ∷ ("KeyTouchLastVerified", key_touch_last_verified st (envs "KeyTouchLastVerified"))
      ∷ (
        "KeyTouchLastVerifiedUnknownReturnsNotFound",
        key_touch_last_verified_unknown_returns_not_found st
            (envs "KeyTouchLastVerifiedUnknownReturnsNotFound"),
      )
      ∷ (
        "KeyDecrementRemainingUses",
        key_decrement_remaining_uses st (envs "KeyDecrementRemainingUses"),
      )
      ∷ (
        "KeyDecrementUnlimitedIsNoop",
        key_decrement_unlimited_is_noop st (envs "KeyDecrementUnlimitedIsNoop"),
      )
      ∷ (
        "KeyDecrementUnknownReturnsNotFound",
        key_decrement_unknown_returns_not_found st (envs "KeyDecrementUnknownReturnsNotFound"),
      )
      ∷ []

  -- The names of the subtests that fail, if `new_store` gives each its store.
  unfoldable pub run : Store S → (String → Surroundings) → (String → S) → List String
  run st envs new_store = run_tests new_store (tests st envs)
