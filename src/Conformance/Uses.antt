-- ===== src/Conformance/Uses.antt =====
-- keychainserver/store/conformance/conformance.go: the tests of the last verification and of the
-- remaining uses.
use keychain.Base.{not, Bool, true, false, Option, none, some, Action, nat_eq}
use keychain.Base.Int.{ℤ, pos, negsuc}
use keychain.Store.{Time, not_found, Store}
use keychain.Conformance.{
  ◌>>=◌, ◌>>◌, Surroundings, Failure, fatal_if, must, must_fail, ignoring, zero_key, repeat,
  truncate, new_key, seed_workspace, seed_api,
}

-- n == m
abbrev int_eq : ℤ → ℤ → Bool
int_eq (pos n) (pos m) = nat_eq n m
int_eq (negsuc n) (negsuc m) = nat_eq n m
int_eq n m = false

abbrev is_nil : Option Time → Bool
is_nil none = true
is_nil (some t) = false

-- t.Equal(at)
abbrev pub equals_time : Time → Option Time → Bool
equals_time at none = false
equals_time at (some t) = nat_eq t at

module _ {S : Type 0} (st : Store S) (env : Surroundings) where
  unfoldable pub key_touch_last_verified : Action S Failure (Unit {0})
  key_touch_last_verified = do
    w ← seed_workspace st env 0
    a ← seed_api st env 1 w.workspace_id
    k ←
        ignoring zero_key
          (st.create_key (env.stamps 2) (new_key a.api_id w.workspace_id "user_1" (repeat 0x90 32)))
    let at = truncate env.now
    must "touch" (st.touch_last_verified k.key_id at)
    got ← ignoring zero_key (st.get_key_by_id k.key_id)
    fatal_if "LastVerifiedAt should be populated after touch" (is_nil got.last_verified_at)
    fatal_if "LastVerifiedAt" (not (equals_time at got.last_verified_at))

  unfoldable pub key_touch_last_verified_unknown_returns_not_found : Action S Failure (Unit {0})
  key_touch_last_verified_unknown_returns_not_found =
      must_fail "err" not_found (st.touch_last_verified "key_missing" env.now)

  unfoldable pub key_decrement_remaining_uses : Action S Failure (Unit {0})
  key_decrement_remaining_uses = do
    w ← seed_workspace st env 0
    a ← seed_api st env 1 w.workspace_id
    let k = record (new_key a.api_id w.workspace_id "user_1" (repeat 0xa0 32)) {
      remaining_uses = pos 3;
    }
    created ← must "create" (st.create_key (env.stamps 2) k)
    got ← must "decrement" (st.decrement_remaining_uses (env.stamps 3) created.key_id)
    fatal_if "remaining" (not (int_eq got (pos 2)))
    got ← ignoring (pos 0) (st.decrement_remaining_uses (env.stamps 4) created.key_id)
    fatal_if "remaining" (not (int_eq got (pos 1)))
    got ← ignoring (pos 0) (st.decrement_remaining_uses (env.stamps 5) created.key_id)
    fatal_if "remaining" (not (int_eq got (pos 0)))

  unfoldable pub key_decrement_unlimited_is_noop : Action S Failure (Unit {0})
  key_decrement_unlimited_is_noop = do
    w ← seed_workspace st env 0
    a ← seed_api st env 1 w.workspace_id
    let k = record (new_key a.api_id w.workspace_id "user_1" (repeat 0xb0 32)) {
      remaining_uses = negsuc 0;
    }
    created ← ignoring zero_key (st.create_key (env.stamps 2) k)
    got ← must "decrement" (st.decrement_remaining_uses (env.stamps 3) created.key_id)
    fatal_if "unlimited key" (not (int_eq got (negsuc 0)))

  unfoldable pub key_decrement_unknown_returns_not_found : Action S Failure (Unit {0})
  key_decrement_unknown_returns_not_found =
      must_fail "err" not_found (st.decrement_remaining_uses (env.stamps 0) "key_missing")
