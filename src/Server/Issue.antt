-- ===== src/Server/Issue.antt =====
-- `CreateKey`, and `VerifyKey` on the plaintext that it returns.
use Prim.Native.String.{◌++◌}
use keychain.Base.{
  String, String-Comparable, Bytes, ◌≡◌, ◌≢◌, true, refl, sym, ap, ◌∙◌, none, some, arith, ok,
  Outcome, equal_ne,
}
use keychain.Keymat
use keychain.Base.Lists.{length}
use keychain.Base.Int.{ℤ, pos}
use keychain.Keymat.Encoding.{plaintext-given}
use keychain.Keymat.{b32_encode}
use keychain.Store.{Api, Key, new_id}
use keychain.Store.Contract.{
  Precision, kept_key, View, Contract, Returns, with_key, stamped_key, found,
}
use keychain.Wire
use keychain.Wire.{VerifyResult, VerifyKeyRequest, VerifyKeyResponse}
use keychain.Server.{Server, World, Readings, Status}
use keychain.Server.Convert.{Timestamps, key_to_proto}
use keychain.Server.Admin.{issued_uses, create_key, key_material, issued_key}
use keychain.Server.Verify.{verify_key, found_response}
use keychain.Server.Permissions.{Includes}
use keychain.Server.Usable.{IsLive}
use keychain.Server.Decision.{Spends, update_self}
use keychain.Server.Metering.{IsUnmetered, verify_unmetered}

-- The plaintext that `New` makes of the random bytes.
abbrev pub plaintext_of : Api → Bytes → String
plaintext_of api b = api.key_prefix ++ b32_encode b

-- No key is issued without credit.
issued_uses-credit : (n : ℤ) → issued_uses n ≢ pos 0
unfolding issued_uses
issued_uses-credit n e = ground arith

-- The key that `CreateKey` stores.
abbrev pub new_key :
    {S R : Type 0} (ts : Timestamps) (sum256 : String → Bytes) (srv : Server S R) (env : Readings)
    → Wire.CreateKeyRequest ts.Timestamp
    → Api
    → Bytes
    → Key
new_key ts sum256 srv env req api b =
    stamped_key env.stamp (issued_key ts sum256 srv env req api (sum256 (plaintext_of api b)))

module _ {S R : Type 0} (ts : Timestamps) (sum256 : String → Bytes) (srv : Server S R)
    (env : Readings) (Valid : S → Type 0) (view : S → View) {precision : Precision}
    (c : Contract Valid view precision srv.store) where
  open ts use {Timestamp}

  -- What the store keeps of the new key.
  abbrev pub kept : Wire.CreateKeyRequest Timestamp → Api → Bytes → Key
  kept req api b = kept_key precision (new_key ts sum256 srv env req api b)

  pub record Issues (req : Wire.CreateKeyRequest Timestamp) (api : Api) (b : Bytes) (w : World S R)
      (r : Outcome Status (Wire.CreateKeyResponse Timestamp) × World S R) : Type 0 where
    pub result :
        r.0
        ≡ ok (record {
          key = key_to_proto ts (new_key ts sum256 srv env req api b);
          plaintext = plaintext_of api b;
        })
    pub valid : Valid r.1.stored
    pub after : view r.1.stored ≡ with_key (new_id "key" env.stamp) (kept req api b) (view w.stored)
    pub limiter : r.1.limiter ≡ w.limiter

  pub new_of_random :
      (prefix : String) (b : Bytes)
      → env.random ≡ ok b
      → let p = prefix ++ b32_encode b in Keymat.new sum256 prefix env.random ≡ ok (p, sum256 p)
  unfolding Keymat.new
  new_of_random prefix b random = ap (Keymat.new sum256 prefix) random

  module _ (req : Wire.CreateKeyRequest Timestamp) (api : Api) (b : Bytes) (w : World S R)
      (v : Valid w.stored) (named : req.api_id ≢ "") (owned : req.owner_principal_id ≢ "")
      (parent : (view w.stored).apis req.api_id ≡ some api) (random : env.random ≡ ok b)
      (fresh : (view w.stored).keys (new_id "key" env.stamp) ≡ none)
      (free : (j : String) (l : Key)
        → (view w.stored).keys j ≡ some l
        → l.key_hash ≢ sum256 (plaintext_of api b))
      (held : precision.holds_key (new_key ts sum256 srv env req api b) ≡ true) where
    -- The record handed to the store.
    abbrev handed : Key
    handed = issued_key ts sum256 srv env req api (sum256 (plaintext_of api b))

    abbrev after_call : S
    after_call = (srv.store.create_key env.stamp handed w.stored).1

    stores_key :
        Returns Valid view
          (srv.store.create_key env.stamp handed w.stored)
          (stamped_key env.stamp handed)
          (with_key
            (new_id "key" env.stamp)
            (kept_key precision (stamped_key env.stamp handed))
            (view w.stored))
    unfolding issued_key
    stores_key =
        let (u, owner) = c.api_parent w.stored v req.api_id api parent in
        c.create_key w.stored v env.stamp handed api u
          (ap (view w.stored).apis (c.api_label w.stored v req.api_id api parent) ∙ parent) owner
          fresh free held

    create_key-run : create_key ts sum256 srv env req w ≡ (
      ok (record {
        key = key_to_proto ts (new_key ts sum256 srv env req api b);
        plaintext = plaintext_of api b;
      }),
      record w { stored = after_call },
    )
    unfolding create_key key_material
    create_key-run =
        let got : srv.store.get_api req.api_id w.stored ≡ (ok api, w.stored) =
          c.get_api w.stored v req.api_id (c.api_text w.stored v req.api_id api parent)
          ∙ ap (λ o. (found o, w.stored)) parent in
        let full : srv.store.create_key env.stamp handed w.stored
            ≡ (ok (stamped_key env.stamp handed), after_call) =
          λ i. (stores_key.result i, after_call) in
        rw (equal_ne req.api_id "" named, equal_ne req.owner_principal_id "" owned)
          (rw got (rw (new_of_random api.key_prefix b random) (rw full refl)))

    pub create_key-Issues : Issues req api b w (create_key ts sum256 srv env req w)
    create_key-Issues = rw create_key-run (record {
      result = refl;
      valid = stores_key.valid;
      after = stores_key.after;
      limiter = refl;
    })

    -- CreateKey for an existing API, with 32 random bytes, a fresh id and a fresh hash, for a key
    -- that the store can hold, returns the new key and its plaintext; a later VerifyKey that
    -- presents this plaintext before the expiry and requires only permissions of the key is valid
    -- and spends one use, if no limit has to be asked.
    pub create_key-verify :
        length b ≡ Keymat.random_bytes
        → (later : Readings) (vreq : VerifyKeyRequest) → vreq.plaintext ≡ plaintext_of api b
        → IsLive (kept req api b).expires_at later.checked_at
        → Includes req.permissions vreq.required_permissions
        → IsUnmetered (kept req api b) vreq
        → let w' = (create_key ts sum256 srv env req w).1 in
          ((create_key ts sum256 srv env req w).0
            ≡ ok (record {
              key = key_to_proto ts (new_key ts sum256 srv env req api b);
              plaintext = vreq.plaintext;
            }))
          × Spends sum256 srv later Valid view c
              (kept req api b)
              (found_response (kept req api b))
              w'
              (verify_key sum256 srv later vreq w')
    unfolding issued_key
    create_key-verify full later vreq same live permitted n = (
      rw same create_key-Issues.result,
      verify_unmetered sum256 srv later Valid view c (kept req api b) vreq
          (create_key ts sum256 srv env req w).1
          (record {
            valid = create_key-Issues.valid;
            stored =
                ap (λ x. x.keys (new_id "key" env.stamp)) create_key-Issues.after
                ∙ update_self (new_id "key" env.stamp) (kept req api b) (view w.stored).keys;
            hash = ap sum256 (sym same);
            given = λ e. plaintext-given api.key_prefix b full (sym same ∙ e);
          })
          (record {
            enabled = refl;
            live = live;
            credit = issued_uses-credit req.remaining_uses;
            permitted = permitted;
          })
          n,
    )
