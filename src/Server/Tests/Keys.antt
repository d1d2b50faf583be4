-- ===== src/Server/Tests/Keys.antt =====
-- The theorems on issuing, revoking and rotating a key, and on its credit, applied to the small
-- store.
use text.Mathlib.TextLemmas.{length-append}
use keychain.Base.{
  ℕ, ◌<◌, String, String-Comparable, Bytes, Bytes-Comparable, ◌≡◌, ◌≢◌, refl, ap, Option, none,
  some, List, [], ◌∷◌, ok, arith, inr, eq_iff,
}
use keychain.Base.Int.{pos}
use keychain.Base.Map.{get}
use keychain.Keymat.Encoding.{b32_encode-count}
use keychain.Keymat.{b32_encode}
use keychain.Store.{Key}
use keychain.Memory.{Memory}
use keychain.Memory.Driver.{view, exact}
use keychain.Store.Contract.{kept_key}
use keychain.Memory.Invariant.{IsValid}
use keychain.Memory.Refinement.{driver-Contract}
use keychain.Memory.History.{Reach-IsValid}
use keychain.Memory.Tests.{
  at_100, api_1, key_1, holding, without_keys, without_keys-Reach, holding_key_1-Reach,
}
use keychain.Wire
use keychain.Wire.{VerifyResult, VerifyKeyRequest}
use keychain.Server.{World, Readings}
use keychain.Server.Convert.{time_from_proto, Timestamps, key_to_proto}
use keychain.Server.Admin.{create_key, revoke_key, rotate_key, issued_key}
use keychain.Server.Verify.{verify_key, found_response, not_found_response, with_result}
use keychain.Server.Decision.{Spends}
use keychain.Server.Issue.{plaintext_of, new_key, create_key-verify}
use keychain.Server.Lifecycle.{revoke_key-verify, rotated_key, rotate_key-verify}
use keychain.Server.Credit.{Left, uses, verify_all, verify_all-Left}
use keychain.Server.Tests.{sum, readings, server, world, asking, Usable-1, Includes-read, given}

-- A stand-in for timestamppb.
abbrev instants : Timestamps
instants = record { Timestamp = ℕ; new = λ t. t; as_time = λ t. t }

abbrev eight_bytes : Bytes → Bytes
eight_bytes rest = 1 ∷ 2 ∷ 3 ∷ 5 ∷ 8 ∷ 13 ∷ 21 ∷ 255 ∷ rest

abbrev random_1 : Bytes
random_1 = eight_bytes (eight_bytes (eight_bytes (eight_bytes [])))

abbrev now : Readings
now = record readings { stamp = at_100; random = ok random_1 }

abbrev issuing : Wire.CreateKeyRequest ℕ
issuing = record {
  api_id = "api_1";
  owner_principal_id = "user_1";
  name = "second";
  permissions = "read" ∷ "write" ∷ [];
  limit_refs = [];
  expires_at = some 500;
  remaining_uses = pos 3;
  metadata = none;
}

abbrev empty_world : World Memory ℕ
empty_world = record { stored = without_keys; limiter = 0 }

-- The request that presents the plaintext of the new key.
abbrev asking_new : VerifyKeyRequest
asking_new = record (asking ("read" ∷ [])) { plaintext = plaintext_of api_1 random_1 }

named_api : ◌≢◌ {A = String} "api_1" ""
named_api e = ground (arith, eq_iff "api_1" "")

named_user : ◌≢◌ {A = String} "user_1" ""
named_user e = ground (arith, eq_iff "user_1" "")

named_key : ◌≢◌ {A = String} "key_1" ""
named_key e = ground (arith, eq_iff "key_1" "")

live_500 : (t : ℕ) → ◌≡◌ {A = Option ℕ} (some 500) (some t) → 200 < t
live_500 t e = ground arith

abbrev issued_1 : Key
issued_1 = kept_key exact (new_key instants sum (server none) now issuing api_1 random_1)

create_key-verify_example :
    let w' = (create_key instants sum (server none) now issuing empty_world).1 in
    ((create_key instants sum (server none) now issuing empty_world).0
      ≡ ok (record {
        key = key_to_proto instants (new_key instants sum (server none) now issuing api_1 random_1);
        plaintext = plaintext_of api_1 random_1;
      }))
    × Spends sum
        (server none)
        readings
        IsValid
        view
        driver-Contract
        issued_1
        (found_response issued_1)
        w'
        (verify_key sum (server none) readings asking_new w')
unfolding get time_from_proto issued_key
create_key-verify_example =
    create_key-verify instants sum (server none) now IsValid view driver-Contract issuing api_1
      random_1 empty_world (Reach-IsValid without_keys-Reach) named_api named_user refl refl refl
      (λ j l e. cc) refl refl readings asking_new refl live_500 Includes-read (inr refl)

revoke_key-verify_example :
    let w' =
      (revoke_key instants sum (server none) now (record { key_id = "key_1" }) (world key_1)).1 in
    ((revoke_key instants sum (server none) now (record { key_id = "key_1" }) (world key_1)).0
      ≡ ok (record {}))
    × (verify_key sum (server none) readings (asking ("read" ∷ [])) w'
        ≡ (ok (with_result (found_response key_1) VerifyResult.revoked), w'))
unfolding get
revoke_key-verify_example =
    revoke_key-verify instants sum (server none) now IsValid view driver-Contract "key_1" key_1
      (world key_1) (Reach-IsValid holding_key_1-Reach) named_key refl readings
      (asking ("read" ∷ [])) given refl

abbrev first_byte : Bytes → ℕ
first_byte [] = 0
first_byte (x ∷ xs) = x

-- The new plaintext has 55 characters, and the stored key's hash stands for 6.
changed : key_1.key_hash ≢ sum (plaintext_of api_1 random_1)
changed e =
    omega
      (arith, length-append "kc_" (b32_encode random_1), b32_encode-count random_1, ap first_byte e)

only_key :
    (j : String) (l : Key)
    → (view (holding key_1)).keys j ≡ some l
    → "key_1" ≢ j
    → l.key_hash ≢ sum (plaintext_of api_1 random_1)
unfolding get
only_key j l e other same = ground (arith, eq_iff "key_1" j)

abbrev rotated_1 : Key
rotated_1 = rotated_key exact sum now key_1 api_1 random_1

rotate_key-verify_example :
    let (r, w') =
      rotate_key instants sum (server none) now (record { key_id = "key_1" }) (world key_1) in
    (r
      ≡ ok (record {
        key = key_to_proto instants rotated_1;
        plaintext = plaintext_of api_1 random_1;
      }))
    × ((verify_key sum (server none) readings (asking ("read" ∷ [])) w'
          ≡ (ok not_found_response, w'))
        × Spends sum
            (server none)
            readings
            IsValid
            view
            driver-Contract
            rotated_1
            (found_response key_1)
            w'
            (verify_key sum (server none) readings asking_new w'))
unfolding get
rotate_key-verify_example =
    rotate_key-verify instants sum (server none) now IsValid view driver-Contract "key_1" key_1
      (world key_1) (Reach-IsValid holding_key_1-Reach) named_key refl api_1 random_1 refl refl
      only_key refl changed readings (asking ("read" ∷ [])) asking_new refl refl Usable-1 (inr refl)

-- Three calls on a key with two uses.
abbrev three_calls : List (Readings × VerifyKeyRequest)
three_calls =
    (readings, asking ("read" ∷ []))
    ∷ (readings, asking ("write" ∷ []))
    ∷ (readings, asking [])
    ∷ []

verify_all-Left_example :
    let (os, w') = verify_all sum (server none) three_calls (world key_1) in
    Left sum (server none) IsValid view driver-Contract "key_1" 2 (uses "key_1" os) w'
unfolding get
verify_all-Left_example =
    verify_all-Left sum (server none) IsValid view driver-Contract "key_1" three_calls (world key_1)
      key_1 2 (Reach-IsValid holding_key_1-Reach) refl refl
