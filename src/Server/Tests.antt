-- ===== src/Server/Tests.antt =====
-- The service over the small store of the in-memory driver, with a rate limiter that gives one
-- answer and counts its calls, and the theorems on `VerifyKey` applied to it.
pub mod Keys
mod Registry
use Prim.Native.String.{count, ◌++◌}
use mathlib.Core.List.{mem-cons_self}
use keychain.Base.{
  ℕ, suc, String, String-Comparable, Bytes, ◌≡◌, ◌≢◌, ◌↔◌, refl, Bool, true, false, Option, none,
  some, List, [], ◌∷◌, ok, err, arith, inl, inr, Outcome, eq_iff, subst,
}
use keychain.Base.Lists.{any}
use keychain.Base.Int.{ℤ, pos, negsuc}
use keychain.Store.{Key, opaque}
use keychain.Memory.{Memory}
use keychain.Memory.Driver.{driver, view}
use keychain.Memory.Invariant.{IsValid}
use keychain.Memory.Refinement.{driver-Contract}
use keychain.Memory.History.{Reach-IsValid}
use keychain.Memory.Tests.{
  at_100, key_1, limited_1, holding, holding_key_1-Reach, holding_limited_1-Reach,
}
use keychain.Keymat.{hash}
use keychain.Keymat
use keychain.Keymat.Encoding.{new-ok}
use keychain.Base.Map.{get}
use keychain.Wire.{VerifyResult, VerifyKeyRequest, VerifyKeyResponse}
use keychain.Server.{
  Server, World, Readings, RateLimiter, LimitDecision, Status, status, failed_precondition,
  unavailable, text, labelled,
}
use keychain.Server.Verify.{
  has_all_permissions, in_set, verify_key, after_lookup, check, limit, spend, after_decrement,
  finish, consume_limits, after_consume, found_response, with_result,
}
use keychain.Server.Permissions.{Includes, has_all_permissions_iff}
use keychain.Server.Usable.{Usable, Refusal, expired}
use keychain.Server.Decision.{Spends, granted}
use keychain.Server.Metering.{
  Presents, IsMetered, IsUnmetered, metered_response, verify-Refusal, verify_unmetered,
  verify_unwired, verify_unavailable, verify_rate_limited, verify_allowed,
}
use keychain.Server.Table.{Decision, verify-Decision}
use keychain.Server.Verdicts.{Sound, Agrees, verify-Sound, verify-Agrees, verify-stored, IsGranted}

-- A stand-in for SHA-256: the number of characters.
abbrev pub sum : String → Bytes
sum s = count s ∷ []

-- The plaintext of the stored key.
abbrev plaintext_1 : String
plaintext_1 = "kc_abc"

abbrev pub readings : Readings
readings = record {
  checked_at = 200;
  touched_at = 201;
  stamp = record { now = 150; uuid = "2" };
  random = ok [];
}

-- The same call after the key has expired.
abbrev late : Readings
late = record readings { checked_at = 600 }

abbrev burst : Bool → LimitDecision
burst b = record {
  limit_id = "burst";
  scope_key = "user_1";
  allowed = b;
  remaining = pos 1;
  retry_after_ms = pos 0;
}

abbrev answering : Bool → RateLimiter ℕ
answering b = record { consume = λ refs cost id n. (ok (burst b ∷ []), suc n) }

abbrev server : Option (RateLimiter ℕ) → Server Memory ℕ
server rl = record { store = driver; rl = rl }

abbrev world : Key → World Memory ℕ
world k = record { stored = holding k; limiter = 0 }

abbrev pub asking : List String → VerifyKeyRequest
asking required = record {
  plaintext = plaintext_1;
  required_permissions = required;
  action = "";
  cost = pos 0;
  request_id = "req_1";
  skip_ratelimit = false;
}

pub given : plaintext_1 ≢ ""
given e = ground (arith, eq_iff plaintext_1 "")

Includes-read : Includes ("read" ∷ "write" ∷ []) ("read" ∷ [])
unfolding has_all_permissions in_set any
Includes-read = (has_all_permissions_iff ("read" ∷ "write" ∷ []) ("read" ∷ [])).0 refl

Usable-1 : Usable key_1 ("read" ∷ []) 200
Usable-1 = record {
  enabled = refl;
  live = λ t e. ground arith;
  credit = λ e. cc;
  permitted = Includes-read;
}

-- The key is not changed by having a limit.
pub Usable-limited_1 : Usable limited_1 ("read" ∷ []) 200
Usable-limited_1 = record {
  enabled = refl;
  live = λ t e. ground arith;
  credit = λ e. cc;
  permitted = Includes-read;
}

Presents-1 :
    (env : Readings)
    → Presents sum
        (server none)
        env
        IsValid
        view
        driver-Contract
        key_1
        (asking ("read" ∷ []))
        (world key_1)
unfolding get
Presents-1 env = record {
  valid = Reach-IsValid holding_key_1-Reach;
  stored = refl;
  hash = refl;
  given = given;
}

Presents-limited_1 :
    (rl : Option (RateLimiter ℕ))
    → Presents sum
        (server rl)
        readings
        IsValid
        view
        driver-Contract
        limited_1
        (asking ("read" ∷ []))
        (world limited_1)
unfolding get
Presents-limited_1 rl = record {
  valid = Reach-IsValid holding_limited_1-Reach;
  stored = refl;
  hash = refl;
  given = given;
}

pub IsMetered-1 : IsMetered limited_1 (asking ("read" ∷ []))
IsMetered-1 = (refl, λ e. cc)

verify-Decision_example :
    Decision sum
      (server none)
      readings
      IsValid
      view
      driver-Contract
      (asking ("read" ∷ []))
      (world key_1)
      (verify_key sum (server none) readings (asking ("read" ∷ [])) (world key_1))
verify-Decision_example =
    verify-Decision sum (server none) readings IsValid view driver-Contract (asking ("read" ∷ []))
      (world key_1) (Reach-IsValid holding_key_1-Reach)

verify-Agrees_example :
    Agrees sum
      (server none)
      readings
      IsValid
      view
      driver-Contract
      (verify_key sum (server none) readings (asking ("admin" ∷ [])) (world key_1)).0
verify-Agrees_example =
    verify-Agrees sum (server none) readings IsValid view driver-Contract (asking ("admin" ∷ []))
      (world key_1) (Reach-IsValid holding_key_1-Reach)

verify-Refusal_example :
    verify_key sum (server none) late (asking ("read" ∷ [])) (world key_1)
    ≡ (ok (with_result (found_response key_1) VerifyResult.expired), world key_1)
verify-Refusal_example =
    verify-Refusal sum (server none) late IsValid view driver-Contract key_1 (asking ("read" ∷ []))
      (world key_1) (Presents-1 late) (expired refl (λ live. ground (arith, live 500 refl)))

unmetered_1 :
    Spends sum
      (server none)
      readings
      IsValid
      view
      driver-Contract
      key_1
      (found_response key_1)
      (world key_1)
      (verify_key sum (server none) readings (asking ("read" ∷ [])) (world key_1))
unmetered_1 =
    verify_unmetered sum (server none) readings IsValid view driver-Contract key_1
      (asking ("read" ∷ [])) (world key_1) (Presents-1 readings) Usable-1 (inr refl)

verify_unmetered_example :
    Spends sum
      (server none)
      readings
      IsValid
      view
      driver-Contract
      key_1
      (found_response key_1)
      (world key_1)
      (verify_key sum (server none) readings (asking ("read" ∷ [])) (world key_1))
verify_unmetered_example =
    verify_unmetered sum (server none) readings IsValid view driver-Contract key_1
      (asking ("read" ∷ [])) (world key_1) (Presents-1 readings) Usable-1 (inr refl)

verify-Sound_example :
    Sound sum
      (server none)
      readings
      IsValid
      view
      driver-Contract
      (asking ("read" ∷ []))
      (world key_1)
      (verify_key sum (server none) readings (asking ("read" ∷ [])) (world key_1)).1
      (granted (found_response key_1))
verify-Sound_example =
    verify-Sound sum (server none) readings IsValid view driver-Contract (asking ("read" ∷ []))
      (world key_1) (granted (found_response key_1)) (Reach-IsValid holding_key_1-Reach)
      unmetered_1.result refl

refused_late :
    verify_key sum (server none) late (asking ("read" ∷ [])) (world key_1)
    ≡ (ok (with_result (found_response key_1) VerifyResult.expired), world key_1)
refused_late =
    verify-Refusal sum (server none) late IsValid view driver-Contract key_1 (asking ("read" ∷ []))
      (world key_1) (Presents-1 late) (expired refl (λ live. ground (arith, live 500 refl)))

verify-stored_example :
    (verify_key sum (server none) late (asking ("read" ∷ [])) (world key_1)).1.stored
    ≡ holding key_1
verify-stored_example =
    verify-stored sum (server none) late IsValid view driver-Contract (asking ("read" ∷ []))
      (world key_1) (Reach-IsValid holding_key_1-Reach)
      (λ g. cc (
        subst (λ r. IsGranted sum (server none) late IsValid view driver-Contract r.0) refused_late
          g))

verify_rate_limited_example :
    verify_key sum
      (server (some (answering false)))
      readings
      (asking ("read" ∷ []))
      (world limited_1)
    ≡ (
      ok (with_result (metered_response limited_1 (burst false ∷ [])) VerifyResult.rate_limited),
      record (world limited_1) { limiter = 1 },
    )
verify_rate_limited_example =
    verify_rate_limited sum (server (some (answering false))) readings IsValid view driver-Contract
      limited_1 (asking ("read" ∷ [])) (world limited_1)
      (Presents-limited_1 (some (answering false))) Usable-limited_1 IsMetered-1 (answering false)
      refl 1 (burst false ∷ []) (burst false) refl mem-cons_self refl

verify_allowed_example :
    Spends sum
      (server (some (answering true)))
      readings
      IsValid
      view
      driver-Contract
      limited_1
      (metered_response limited_1 (burst true ∷ []))
      (record (world limited_1) { limiter = 1 })
      (verify_key sum
        (server (some (answering true)))
        readings
        (asking ("read" ∷ []))
        (world limited_1))
verify_allowed_example =
    verify_allowed sum (server (some (answering true))) readings IsValid view driver-Contract
      limited_1 (asking ("read" ∷ [])) (world limited_1)
      (Presents-limited_1 (some (answering true))) Usable-limited_1 IsMetered-1 (answering true)
      refl 1 (burst true ∷ []) refl (refl, tt)

has_all_permissions_iff_example :
    (has_all_permissions ("read" ∷ []) ("write" ∷ []) ≡ true)
    ↔ Includes ("read" ∷ []) ("write" ∷ [])
has_all_permissions_iff_example = has_all_permissions_iff ("read" ∷ []) ("write" ∷ [])

new-ok_example :
    (p : String) × ((Keymat.new sum "kc_" (ok (1 ∷ 255 ∷ []))
        ≡ ok ("kc_" ++ p, hash sum ("kc_" ++ p)))
      × (count p ≡ 4))
new-ok_example = new-ok sum "kc_" (1 ∷ 255 ∷ [])
