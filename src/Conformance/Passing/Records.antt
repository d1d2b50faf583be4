-- ===== src/Conformance/Passing/Records.antt =====
-- Every store that keeps the contract of store.go passes the tests of workspaces and APIs.
use keychain.Base.{refl, String-Comparable, equal_refl}
use keychain.Store.{Store}
use keychain.Conformance.Law.{Law}
use keychain.Store.Contract.{View, Precision, kept_workspace, kept_api}
use keychain.Conformance.{Surroundings, new_workspace, new_api}
use keychain.Conformance.Records.{
  workspace_create_and_get, workspace_get_not_found, api_create_requires_workspace,
  api_create_and_get, api_get_not_found,
}
use keychain.Conformance.Steps.{
  Passes, pass_bind, pass_then, pass_last, lead_must, lead_must_fail, lead_check,
}
use keychain.Conformance.Calls.{
  lead_create_workspace, lead_get_workspace, lead_create_api, lead_get_api,
}
use keychain.Conformance.Refusals.{fail_get_workspace, fail_create_api, fail_get_api}
use keychain.Store.Ids.{api_id-not_empty, workspace_id-not_empty}
use keychain.Conformance.Seeds.{
  Suits, empty_view, seed_w, seed_a, seeded-workspaces, seeded-apis, lead_seed_workspace,
}

module _ {S : Type 0} {Valid : S → Type 0} {view : S → View} {p : Precision} {st : Store S}
    (law : Law Valid view p st) (env : Surroundings) (suits : Suits p env) where
  pub workspace_create_and_get-Passes :
      Passes Valid view empty_view (workspace_create_and_get st env)
  unfolding workspace_create_and_get
  workspace_create_and_get-Passes =
      pass_bind _
        (lead_must "create" (lead_create_workspace law (env.stamps 0) (new_workspace "acme") refl))
        (pass_then (lead_check _ (workspace_id-not_empty (env.stamps 0))) (
          pass_then (lead_check _ (rw (suits.started 0) refl)) (
            pass_bind _
              (lead_must "get" (
                lead_get_workspace law (seed_w p env).workspace_id (kept_workspace p (seed_w p env))
                  (seeded-workspaces p env)))
              (pass_then (lead_check _ (rw (equal_refl (seed_w p env).workspace_id) refl))
                (pass_then (lead_check _ refl) (pass_last (lead_check _ refl)))))))

  pub workspace_get_not_found-Passes : Passes Valid view empty_view (workspace_get_not_found st env)
  unfolding workspace_get_not_found
  workspace_get_not_found-Passes =
      pass_last (lead_must_fail _ _ (fail_get_workspace law "ws_missing" refl) refl)

  pub api_create_requires_workspace-Passes :
      Passes Valid view empty_view (api_create_requires_workspace st env)
  unfolding api_create_requires_workspace
  api_create_requires_workspace-Passes = pass_last (
      lead_must_fail _ _
        (fail_create_api law (env.stamps 0) (new_api "ws_missing" "prod") refl refl) refl)

  pub api_create_and_get-Passes : Passes Valid view empty_view (api_create_and_get st env)
  unfolding api_create_and_get
  api_create_and_get-Passes = pass_bind _ (lead_seed_workspace law env) (
      pass_bind _
        (lead_must "create" (
          lead_create_api law (env.stamps 1) (new_api (seed_w p env).workspace_id "prod")
            (kept_workspace p (seed_w p env)) (seeded-workspaces p env) refl))
        (pass_then (lead_check _ (api_id-not_empty (env.stamps 1))) (
          pass_then (lead_check _ (suits.started 1)) (
            pass_bind _
              (lead_must "get" (
                lead_get_api law (seed_a p env).api_id (kept_api p (seed_a p env))
                  (seeded-apis p env)))
              (pass_then (lead_check _ (rw (equal_refl (seed_w p env).workspace_id) refl))
                (pass_last (lead_check _ refl)))))))

  pub api_get_not_found-Passes : Passes Valid view empty_view (api_get_not_found st env)
  unfolding api_get_not_found
  api_get_not_found-Passes =
      pass_last (lead_must_fail _ _ (fail_get_api law "api_missing" refl) refl)
