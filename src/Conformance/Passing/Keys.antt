-- ===== src/Conformance/Passing/Keys.antt =====
-- Every store that keeps the contract of store.go passes the tests that create keys and look them
-- up.
use keychain.Base.{◌≡◌, refl, [], ◌∷◌, String-Comparable, equal_refl, arith, not, some, false}
use keychain.Base.Map.{get}
use keychain.Store.{Time, Time, Store}
use keychain.Conformance.Law.{Law}
use keychain.Store.Contract.{View, Precision, kept_api, kept_workspace}
use keychain.Conformance.{
  Surroundings, new_key, repeat, assert_key_fields, maps_equal, same_optional_time, in_an_hour,
  an_hour_ago,
}
use keychain.Conformance.Keys.{
  key_create_requires_api, key_create_and_lookup, full_key, full_snapshot,
  key_create_preserves_all_fields, key_get_by_hash_unknown, key_get_by_id_unknown,
  key_create_rejects_duplicate_hash,
}
use keychain.Conformance.Steps.{
  Passes, pass_bind, pass_then, pass_last, lead_must, lead_must_fail, lead_check,
}
use keychain.Conformance.Calls.{lead_get_key, lead_get_hash}
use keychain.Conformance.Refusals.{
  fail_create_key_orphan, fail_create_key_conflict, fail_get_hash, fail_get_key,
}
use keychain.Store.Ids.{key_id-not_empty}
use keychain.Conformance.Seeds.{
  Suits, empty_view, seed_w, seed_a, seeded-workspaces, seeded-apis, pass_seeded, test_key,
  lead_first_key, lead_get_first, first_id, first_key, keyed-held, second_id-free,
}

equal-same : (t u : Time) → u ≡ t → not (same_optional_time (some u) (some t)) ≡ false
unfolding same_optional_time
equal-same t u e = ground (arith, e)

kept_env-same :
    {p : Precision} {env : Surroundings}
    → Suits p env
    → not (maps_equal (p.metadata (some (("env", "test") ∷ []))) (some (("env", "test") ∷ [])))
      ≡ false
unfolding maps_equal get
kept_env-same suits = rw (suits.small "env" "test") refl

module _ {S : Type 0} {Valid : S → Type 0} {view : S → View} {p : Precision} {st : Store S}
    (law : Law Valid view p st) (env : Surroundings) (suits : Suits p env) where
  pub key_create_requires_api-Passes : Passes Valid view empty_view (key_create_requires_api st env)
  unfolding key_create_requires_api
  key_create_requires_api-Passes = pass_last (
      lead_must_fail _ _
        (fail_create_key_orphan law (env.stamps 0)
          (new_key "api_missing" "ws_x" "user_1" (104 ∷ 97 ∷ 115 ∷ 104 ∷ 45 ∷ 97 ∷ 98 ∷ 99 ∷ []))
          refl refl (λ j l e. cc))
        refl)

  pub key_create_and_lookup-Passes : Passes Valid view empty_view (key_create_and_lookup st env)
  unfolding key_create_and_lookup
  key_create_and_lookup-Passes = pass_seeded law env _ (
      pass_bind _ (lead_must _ (lead_first_key law env (test_key p env 0xab) refl refl)) (
        pass_then (lead_check _ (key_id-not_empty (env.stamps 2))) (
          pass_then (lead_check _ refl) (
            pass_bind _
              (lead_must _ (
                lead_get_key law (first_id env) (first_key p env (test_key p env 0xab))
                  (keyed-held p env (test_key p env 0xab))))
              (pass_then (lead_check _ (rw (equal_refl (first_id env)) refl)) (
                pass_bind _
                  (lead_must _ (
                    lead_get_hash law (first_id env) (first_key p env (test_key p env 0xab))
                      (keyed-held p env (test_key p env 0xab))))
                  (pass_last (lead_check _ (rw (equal_refl (first_id env)) refl)))))))))

  -- The checks of all fields pass on what is kept of the full key.
  pub full_key-Passes :
      {v : View}
      → Passes Valid view v (
          assert_key_fields
            (first_key p env (full_key st env (seed_a p env).api_id (seed_w p env).workspace_id))
            (full_snapshot st env))
  unfolding assert_key_fields full_key full_snapshot same_optional_time maps_equal in_an_hour
      an_hour_ago
  full_key-Passes = pass_then (lead_check _ refl) (
      pass_then (lead_check _ refl) (
        pass_then (lead_check _ refl) (
          pass_then (lead_check _ (equal-same _ _ (suits.whole _))) (
            pass_then (lead_check _ (equal-same _ _ (suits.whole _)))
              (pass_last (lead_check _ (kept_env-same suits)))))))

  pub key_create_preserves_all_fields-Passes :
      Passes Valid view empty_view (key_create_preserves_all_fields st env)
  unfolding key_create_preserves_all_fields full_key
  key_create_preserves_all_fields-Passes =
      let k = full_key st env (seed_a p env).api_id (seed_w p env).workspace_id in
      pass_seeded law env _ (
        pass_bind _ (lead_must _ (lead_first_key law env k refl refl))
          (pass_bind _ (lead_must _ (lead_get_first law env k)) full_key-Passes))

  pub key_get_by_hash_unknown-Passes : Passes Valid view empty_view (key_get_by_hash_unknown st env)
  unfolding key_get_by_hash_unknown
  key_get_by_hash_unknown-Passes =
      pass_last (lead_must_fail _ _ (fail_get_hash law (repeat 0 32) (λ j l e. cc)) refl)

  pub key_get_by_id_unknown-Passes : Passes Valid view empty_view (key_get_by_id_unknown st env)
  unfolding key_get_by_id_unknown
  key_get_by_id_unknown-Passes =
      pass_last (lead_must_fail _ _ (fail_get_key law "key_missing" refl) refl)

  pub key_create_rejects_duplicate_hash-Passes :
      Passes Valid view empty_view (key_create_rejects_duplicate_hash st env)
  unfolding key_create_rejects_duplicate_hash
  key_create_rejects_duplicate_hash-Passes =
      let k = test_key p env 0x11 in
      let again = record k { owner_principal_id = "user_2" } in
      pass_seeded law env _ (
        pass_bind _ (lead_must _ (lead_first_key law env k refl refl)) (
          pass_last (
            lead_must_fail _ _
              (fail_create_key_conflict law (env.stamps 3) again (kept_api p (seed_a p env))
                (kept_workspace p (seed_w p env)) (first_id env) (first_key p env k)
                (seeded-apis p env) (seeded-workspaces p env) (second_id-free p env k suits)
                (keyed-held p env k) refl)
              refl)))
