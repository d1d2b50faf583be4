-- ===== src/Conformance/Passing/Lifecycle.antt =====
-- Every store that keeps the contract of store.go passes the tests that revoke and rotate keys.
use keychain.Base.{
  sym, String, some, ◌∙◌, false, ◌≡◌, ◌≢◌, refl, String-Comparable, equal_refl, arith,
  Bytes-Comparable,
}
use keychain.Store.{Key, Store, new_id}
use keychain.Conformance.Law.{Law}
use keychain.Store.Contract.{
  View, Precision, stamped_key, kept_key, kept_api, kept_workspace, with_key,
}
use keychain.Conformance.{Surroundings, zero_key, repeat}
use keychain.Conformance.Lifecycle.{
  key_revoke, key_revoke_is_idempotent, key_revoke_unknown_returns_not_found, key_rotate,
  key_rotate_unknown_returns_not_found, key_rotate_rejects_duplicate_hash,
}
use keychain.Conformance.Steps.{
  Passes, passed, pass_bind, pass_then, pass_last, lead_must, lead_ignoring, lead_must_fail,
  lead_check,
}
use keychain.Conformance.Calls.{
  lead_get_key, lead_get_hash, lead_create_key, lead_rotate_key, pass_revoke, pass_last_revoke,
}
use keychain.Conformance.Refusals.{
  fail_get_hash, fail_revoke_key, fail_rotate_key, fail_rotate_key_conflict,
}
use keychain.Store.Held.{with_key-held}
use keychain.Store.Held.{with_key-HashFree}
use keychain.Store.Held.{with_key-HashUnused}
use keychain.Store.Held.{with_key-other}
use keychain.Store.Ids.{new_id-ne}
use keychain.Conformance.Seeds.{
  Suits, empty_view, seed_w, seed_a, seeded, seeded-workspaces, seeded-apis, pass_seeded, test_key,
  lead_first_key, first_id, first_key, keyed, keyed-held, repeat-ne, second_id-free,
}

module _ {S : Type 0} {Valid : S → Type 0} {view : S → View} {p : Precision} {st : Store S}
    (law : Law Valid view p st) (env : Surroundings) (suits : Suits p env) where
  pub key_revoke-Passes : Passes Valid view empty_view (key_revoke st env)
  unfolding key_revoke
  key_revoke-Passes =
      let k = test_key p env 0x22 in
      pass_seeded law env _ (
        pass_bind _ (lead_must _ (lead_first_key law env k refl refl)) (
          pass_revoke law _ (env.stamps 3) (first_id env) (first_key p env k) _ (keyed-held p env k)
            λ n.
              let off = record (first_key p env k) { enabled = false; updated_at = n } in
              pass_bind _
                (lead_must _ (
                  lead_get_key law (first_id env) off
                    (with_key-held (keyed p env k) (first_id env) off)))
                (pass_last (lead_check _ refl))))

  pub key_revoke_is_idempotent-Passes :
      Passes Valid view empty_view (key_revoke_is_idempotent st env)
  unfolding key_revoke_is_idempotent
  key_revoke_is_idempotent-Passes =
      let k = test_key p env 0x33 in
      pass_seeded law env _ (
        pass_bind _ (lead_ignoring zero_key (lead_first_key law env k refl refl)) (
          pass_revoke law _ (env.stamps 3) (first_id env) (first_key p env k) _ (keyed-held p env k)
            λ n.
              let off = record (first_key p env k) { enabled = false; updated_at = n } in
              pass_last_revoke law _ (env.stamps 4) (first_id env) off
                (with_key-held (keyed p env k) (first_id env) off)))

  pub key_revoke_unknown_returns_not_found-Passes :
      Passes Valid view empty_view (key_revoke_unknown_returns_not_found st env)
  unfolding key_revoke_unknown_returns_not_found
  key_revoke_unknown_returns_not_found-Passes =
      pass_last (lead_must_fail _ _ (fail_revoke_key law (env.stamps 0) "key_missing" refl) refl)

  pub key_rotate-Passes : Passes Valid view empty_view (key_rotate st env)
  unfolding key_rotate
  key_rotate-Passes =
      let k = test_key p env 0x44 in
      let first = first_key p env k in
      let new_hash = repeat 0x55 32 in
      let rotated = record first { key_hash = new_hash; updated_at = p.time (env.stamps 3).now } in
      pass_seeded law env _ (
        pass_bind _ (lead_ignoring zero_key (lead_first_key law env k refl refl)) (
          pass_bind _
            (lead_must _ (
              lead_rotate_key law (env.stamps 3) (first_id env) new_hash first (keyed-held p env k)
                (with_key-HashFree (seeded p env) (first_id env) first new_hash (λ j l e. cc))))
            (pass_then (lead_check _ (rw (equal_refl (first_id env)) refl)) (
              pass_then (lead_check _ refl) (
                pass_then
                  (lead_must_fail _ _
                    (fail_get_hash law (repeat 0x44 32) (
                      with_key-HashUnused (keyed p env k) (first_id env) rotated (repeat 0x44 32)
                        (with_key-HashFree (seeded p env) (first_id env) first (repeat 0x44 32)
                          (λ j l e. cc))
                        (repeat-ne 0x55 0x44 31 (omega arith))))
                    refl)
                  (pass_bind _
                    (lead_must _ (
                      lead_get_hash law (first_id env) rotated
                        (with_key-held (keyed p env k) (first_id env) rotated)))
                    passed))))))

  pub key_rotate_unknown_returns_not_found-Passes :
      Passes Valid view empty_view (key_rotate_unknown_returns_not_found st env)
  unfolding key_rotate_unknown_returns_not_found
  key_rotate_unknown_returns_not_found-Passes = pass_last (
      lead_must_fail _ _ (fail_rotate_key law (env.stamps 0) "key_missing" (repeat 0x56 32) refl)
        refl)

  -- The second key of a test, in the store that holds the first.
  abbrev second_id : String
  second_id = new_id "key" (env.stamps 3)

  abbrev two_keyed : Key → Key → View
  two_keyed k l = with_key second_id (kept_key p (stamped_key (env.stamps 3) l)) (keyed p env k)

  ids-differ : second_id ≢ first_id env
  ids-differ = new_id-ne "key" (env.stamps 3) (env.stamps 2) (suits.differ 3 2 (omega arith))

  first-held : (k l : Key) → (two_keyed k l).keys (first_id env) ≡ some (first_key p env k)
  first-held k l =
      with_key-other (keyed p env k) second_id (kept_key p (stamped_key (env.stamps 3) l))
        (first_id env) ids-differ
      ∙ keyed-held p env k

  pub key_rotate_rejects_duplicate_hash-Passes :
      Passes Valid view empty_view (key_rotate_rejects_duplicate_hash st env)
  unfolding key_rotate_rejects_duplicate_hash
  key_rotate_rejects_duplicate_hash-Passes =
      let k = test_key p env 0x57 in
      let l = record (test_key p env 0x58) { owner_principal_id = "user_2" } in
      let second = kept_key p (stamped_key (env.stamps 3) l) in
      pass_seeded law env _ (
        pass_bind _ (lead_must _ (lead_first_key law env k refl refl)) (
          pass_bind _
            (lead_must _ (
              lead_create_key law (env.stamps 3) l (kept_api p (seed_a p env))
                (kept_workspace p (seed_w p env)) (seeded-apis p env) (seeded-workspaces p env)
                (second_id-free p env k suits)
                (with_key-HashUnused (seeded p env) (first_id env) (first_key p env k)
                  (repeat 0x58 32) (λ j l e ne. cc) (repeat-ne 0x57 0x58 31 (omega arith)))))
            (pass_then
              (lead_must_fail _ _
                (fail_rotate_key_conflict law (env.stamps 4) (first_id env) (repeat 0x58 32)
                  (first_key p env k) second_id second (first-held k l)
                  (with_key-held (keyed p env k) second_id second) (λ e. ids-differ (sym e)) refl)
                refl)
              (pass_bind _
                (lead_must _ (lead_get_key law (first_id env) (first_key p env k) (first-held k l)))
                (pass_last (lead_check _ refl))))))
