-- ===== src/Conformance/Passing/Suite.antt =====
-- Every store that keeps the contract of store.go passes the suite.
use keychain.Base.{◌≡◌, refl, String, List, [], ◌∷◌, Action}
use keychain.Base.Lists.{All}
use keychain.Store.{Store}
use keychain.Conformance.Law.{Law}
use keychain.Store.Contract.{View, Precision}
use keychain.Store.Pages.{Paged}
use keychain.Conformance.{Surroundings, Failure}
use keychain.Conformance.Steps.{Passes}
use keychain.Conformance.Seeds.{Suits, empty_view}
use keychain.Conformance.Passing.Records.{
  workspace_create_and_get-Passes, workspace_get_not_found-Passes,
  api_create_requires_workspace-Passes, api_create_and_get-Passes, api_get_not_found-Passes,
}
use keychain.Conformance.Passing.Keys.{
  key_create_requires_api-Passes, key_create_and_lookup-Passes,
  key_create_preserves_all_fields-Passes, key_get_by_hash_unknown-Passes,
  key_get_by_id_unknown-Passes, key_create_rejects_duplicate_hash-Passes,
}
use keychain.Conformance.Passing.Lists.{
  key_list_preserves_all_fields-Passes, key_list_unknown_api_is_empty-Passes,
}
use keychain.Conformance.Passing.Lifecycle.{
  key_revoke-Passes, key_revoke_is_idempotent-Passes, key_revoke_unknown_returns_not_found-Passes,
  key_rotate-Passes, key_rotate_unknown_returns_not_found-Passes,
  key_rotate_rejects_duplicate_hash-Passes,
}
use keychain.Conformance.Passing.Apis.{key_list_by_api-Passes}
use keychain.Conformance.Passing.Owners.{key_list_filter_by_owner-Passes}
use keychain.Conformance.Passing.Paging.{key_list_paginates-Passes}
use keychain.Conformance.Passing.Pages.{key_list_defaults_page_size-Passes}
use keychain.Conformance.Passing.Uses.{
  key_touch_last_verified-Passes, key_touch_last_verified_unknown_returns_not_found-Passes,
  key_decrement_remaining_uses-Passes, key_decrement_unlimited_is_noop-Passes,
  key_decrement_unknown_returns_not_found-Passes,
}
use keychain.Conformance.Suite.{run, run_tests, tests}

abbrev AllPass :
    {S : Type 0} → (S → Type 0) → (S → View) → List (String × Action S Failure (Unit {0})) → Type 0
AllPass Valid view ts = All (λ test. Passes Valid view empty_view test.1) ts

infixr 5 ◌&◌
◌&◌ : {A B : Type 0} → A → B → A × B
a & b = (a, b)

module _ {S : Type 0} {Valid : S → Type 0} {view : S → View} {p : Precision} {st : Store S}
    (law : Law Valid view p st) (paged : Paged Valid view st) (envs : String → Surroundings)
    (suits : (name : String) → Suits p (envs name)) where
  tests-All : AllPass Valid view (tests st envs)
  unfolding tests
  tests-All =
      workspace_create_and_get-Passes law (envs "WorkspaceCreateAndGet")
        (suits "WorkspaceCreateAndGet")
      & workspace_get_not_found-Passes law (envs "WorkspaceGetNotFound")
          (suits "WorkspaceGetNotFound")
      & api_create_requires_workspace-Passes law (envs "ApiCreateRequiresWorkspace")
          (suits "ApiCreateRequiresWorkspace")
      & api_create_and_get-Passes law (envs "ApiCreateAndGet") (suits "ApiCreateAndGet")
      & api_get_not_found-Passes law (envs "ApiGetNotFound") (suits "ApiGetNotFound")
      & key_create_requires_api-Passes law (envs "KeyCreateRequiresApi")
          (suits "KeyCreateRequiresApi")
      & key_create_and_lookup-Passes law (envs "KeyCreateAndLookup") (suits "KeyCreateAndLookup")
      & key_create_preserves_all_fields-Passes law (envs "KeyCreatePreservesAllFields")
          (suits "KeyCreatePreservesAllFields")
      & key_list_preserves_all_fields-Passes law paged (envs "KeyListPreservesAllFields")
          (suits "KeyListPreservesAllFields")
      & key_get_by_hash_unknown-Passes law (envs "KeyGetByHashUnknown")
          (suits "KeyGetByHashUnknown")
      & key_get_by_id_unknown-Passes law (envs "KeyGetByIDUnknown") (suits "KeyGetByIDUnknown")
      & key_create_rejects_duplicate_hash-Passes law (envs "KeyCreateRejectsDuplicateHash")
          (suits "KeyCreateRejectsDuplicateHash")
      & key_revoke-Passes law (envs "KeyRevoke") (suits "KeyRevoke")
      & key_revoke_is_idempotent-Passes law (envs "KeyRevokeIsIdempotent")
          (suits "KeyRevokeIsIdempotent")
      & key_revoke_unknown_returns_not_found-Passes law (envs "KeyRevokeUnknownReturnsNotFound")
          (suits "KeyRevokeUnknownReturnsNotFound")
      & key_rotate-Passes law (envs "KeyRotate") (suits "KeyRotate")
      & key_rotate_unknown_returns_not_found-Passes law (envs "KeyRotateUnknownReturnsNotFound")
          (suits "KeyRotateUnknownReturnsNotFound")
      & key_rotate_rejects_duplicate_hash-Passes law (envs "KeyRotateRejectsDuplicateHash")
          (suits "KeyRotateRejectsDuplicateHash")
      & key_list_by_api-Passes law paged (envs "KeyListByApi") (suits "KeyListByApi")
      & key_list_filter_by_owner-Passes law paged (envs "KeyListFilterByOwner")
          (suits "KeyListFilterByOwner")
      & key_list_paginates-Passes law paged (envs "KeyListPaginates") (suits "KeyListPaginates")
      & key_list_defaults_page_size-Passes law paged (envs "KeyListDefaultsPageSize")
          (suits "KeyListDefaultsPageSize")
      & key_list_unknown_api_is_empty-Passes law paged (envs "KeyListUnknownApiIsEmpty")
          (suits "KeyListUnknownApiIsEmpty")
      & key_touch_last_verified-Passes law (envs "KeyTouchLastVerified")
          (suits "KeyTouchLastVerified")
      & key_touch_last_verified_unknown_returns_not_found-Passes law
          (envs "KeyTouchLastVerifiedUnknownReturnsNotFound")
          (suits "KeyTouchLastVerifiedUnknownReturnsNotFound")
      & key_decrement_remaining_uses-Passes law (envs "KeyDecrementRemainingUses")
          (suits "KeyDecrementRemainingUses")
      & key_decrement_unlimited_is_noop-Passes law (envs "KeyDecrementUnlimitedIsNoop")
          (suits "KeyDecrementUnlimitedIsNoop")
      & key_decrement_unknown_returns_not_found-Passes law
          (envs "KeyDecrementUnknownReturnsNotFound") (suits "KeyDecrementUnknownReturnsNotFound")
      & tt

  run_tests-passes :
      (new_store : String → S)
      → ((name : String) → Valid (new_store name))
      → ((name : String) → view (new_store name) ≡ empty_view)
      → (ts : List (String × Action S Failure (Unit {0}))) → AllPass Valid view ts
      → run_tests new_store ts ≡ []
  unfolding run_tests
  run_tests-passes new_store valid fresh [] passes = refl
  run_tests-passes new_store valid fresh ((name, test) ∷ ts) passes =
      rw (passes.0.run (new_store name) (valid name) (fresh name))
        (run_tests-passes new_store valid fresh ts passes.1)

  -- A store that keeps the contract of Store/Contract and can hold every text and record, and whose
  -- ListKeys returns pages as store.go promises, passes the modelled subtests of the conformance
  -- suite: if each subtest is given a valid store that holds nothing, if the driver keeps whole
  -- seconds and metadata of one entry, and if within a subtest no two calls read the same uuid and
  -- all read instants after the zero time, the list of the subtests that fail is empty.
  pub run-passes :
      (new_store : String → S)
      → ((name : String) → Valid (new_store name))
      → ((name : String) → view (new_store name) ≡ empty_view)
      → run st envs new_store ≡ []
  unfolding run
  run-passes new_store valid fresh =
      run_tests-passes new_store valid fresh (tests st envs) tests-All
