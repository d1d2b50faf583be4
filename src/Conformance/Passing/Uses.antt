-- ===== src/Conformance/Passing/Uses.antt =====
-- Every store that keeps the contract of store.go passes the tests of the last verification and of
-- the remaining uses.
use keychain.Base.{◌≡◌, refl, false, not, some, arith}
use keychain.Base.Int.{pos}
use keychain.Store.{Time, Store}
use keychain.Conformance.Law.{Law}
use keychain.Store.Contract.{View, Precision, with_key}
use keychain.Conformance.{Surroundings, zero_key, truncate}
use keychain.Conformance.Uses.{
  equals_time, key_touch_last_verified, key_touch_last_verified_unknown_returns_not_found,
  key_decrement_remaining_uses, key_decrement_unlimited_is_noop,
  key_decrement_unknown_returns_not_found,
}
use keychain.Conformance.Steps.{
  Passes, pass_bind, pass_then, pass_last, lead_must, lead_ignoring, lead_must_fail, lead_check,
}
use keychain.Conformance.Calls.{lead_get_key, lead_touch, lead_decrement, lead_decrement_unlimited}
use keychain.Conformance.Refusals.{fail_touch, fail_decrement}
use keychain.Store.Held.{with_key-held}
use keychain.Conformance.Seeds.{
  Suits, empty_view, pass_seeded, test_key, lead_first_key, first_id, first_key, keyed, keyed-held,
}

equal-same : (t u : Time) → u ≡ t → not (equals_time t (some u)) ≡ false
equal-same t u e = ground (arith, e)

module _ {S : Type 0} {Valid : S → Type 0} {view : S → View} {p : Precision} {st : Store S}
    (law : Law Valid view p st) (env : Surroundings) (suits : Suits p env) where
  pub key_touch_last_verified-Passes : Passes Valid view empty_view (key_touch_last_verified st env)
  unfolding key_touch_last_verified
  key_touch_last_verified-Passes =
      let k = test_key p env 0x90 in
      let at = truncate env.now in
      let touched = record (first_key p env k) { last_verified_at = some (p.time at) } in
      pass_seeded law env _ (
        pass_bind _ (lead_ignoring zero_key (lead_first_key law env k refl refl)) (
          pass_then
            (lead_must _
              (lead_touch law (first_id env) at (first_key p env k) (keyed-held p env k)))
            (pass_bind _
              (lead_ignoring zero_key (
                lead_get_key law (first_id env) touched
                  (with_key-held (keyed p env k) (first_id env) touched)))
              (pass_then (lead_check _ refl)
                (pass_last (lead_check _ (equal-same at (p.time at) (suits.whole env.now))))))))

  pub key_touch_last_verified_unknown_returns_not_found-Passes :
      Passes Valid view empty_view (key_touch_last_verified_unknown_returns_not_found st env)
  unfolding key_touch_last_verified_unknown_returns_not_found
  key_touch_last_verified_unknown_returns_not_found-Passes =
      pass_last (lead_must_fail _ _ (fail_touch law "key_missing" env.now refl) refl)

  pub key_decrement_remaining_uses-Passes :
      Passes Valid view empty_view (key_decrement_remaining_uses st env)
  unfolding key_decrement_remaining_uses
  key_decrement_remaining_uses-Passes =
      let k = record (test_key p env 0xa0) { remaining_uses = pos 3 } in
      let first = first_key p env k in
      let second = record first {
        remaining_uses = pos 2;
        updated_at = p.time (env.stamps 3).now;
      } in
      let third = record first { remaining_uses = pos 1; updated_at = p.time (env.stamps 4).now } in
      let v = with_key (first_id env) second (keyed p env k) in
      pass_seeded law env _ (
        pass_bind _ (lead_must _ (lead_first_key law env k refl refl)) (
          pass_bind _
            (lead_must _
              (lead_decrement law (env.stamps 3) (first_id env) first (keyed-held p env k) refl))
            (pass_then (lead_check _ refl) (
              pass_bind _
                (lead_ignoring (pos 0) (
                  lead_decrement law (env.stamps 4) (first_id env) second
                    (with_key-held (keyed p env k) (first_id env) second) refl))
                (pass_then (lead_check _ refl) (
                  pass_bind _
                    (lead_ignoring (pos 0) (
                      lead_decrement law (env.stamps 5) (first_id env) third
                        (with_key-held v (first_id env) third) refl))
                    (pass_last (lead_check _ refl))))))))

  pub key_decrement_unlimited_is_noop-Passes :
      Passes Valid view empty_view (key_decrement_unlimited_is_noop st env)
  unfolding key_decrement_unlimited_is_noop
  key_decrement_unlimited_is_noop-Passes =
      let k = test_key p env 0xb0 in
      pass_seeded law env _ (
        pass_bind _ (lead_ignoring zero_key (lead_first_key law env k refl refl)) (
          pass_bind _
            (lead_must _ (
              lead_decrement_unlimited law (env.stamps 3) (first_id env) (first_key p env k)
                (keyed-held p env k) refl))
            (pass_last (lead_check _ refl))))

  pub key_decrement_unknown_returns_not_found-Passes :
      Passes Valid view empty_view (key_decrement_unknown_returns_not_found st env)
  unfolding key_decrement_unknown_returns_not_found
  key_decrement_unknown_returns_not_found-Passes =
      pass_last (lead_must_fail _ _ (fail_decrement law (env.stamps 0) "key_missing" refl) refl)
