-- ===== src/Server/Lifecycle.antt =====
-- `RevokeKey` and `RotateKey`, and what `VerifyKey` answers after them.
use keychain.Base.{
  String, String-Comparable, Bytes, ◌≡◌, ◌≢◌, refl, sym, ap, ◌∙◌, false, Option, some, arith, ok,
  ◌==◌, equal_ne, Bool-cases, eq_iff, inl, inr,
}
use keychain.Keymat
use keychain.Base.Lists.{length}
use keychain.Keymat.Encoding.{plaintext-given}
use keychain.Server.Issue.{plaintext_of, new_of_random}
use keychain.Store.{Api, Key}
use keychain.Base.Map.{update}
use keychain.Store.Contract.{Precision, View, Contract, Returns, with_key, found, HashFree}
use keychain.Wire.{VerifyResult, VerifyKeyRequest}
use keychain.Server.{Server, World, Readings}
use keychain.Server.Convert.{Timestamps, key_to_proto}
use keychain.Store.Revoking.{revoke_key-Returns}
use keychain.Server.Admin.{revoke_key, rotate_key, key_material}
use keychain.Server.Verify.{verify_key, found_response, not_found_response, with_result}
use keychain.Server.Usable.{Usable, revoked}
use keychain.Server.Decision.{Spends, verify_absent, update_self}
use keychain.Server.Metering.{IsUnmetered, verify-Refusal, verify_unmetered}

some_injective : {a b : Key} → some a ≡ some b → a ≡ b
some_injective e = cc

-- The key with the hash of its new plaintext.
abbrev pub rotated_key : Precision → (String → Bytes) → Readings → Key → Api → Bytes → Key
rotated_key p sum256 env k api b = record k {
  key_hash = sum256 (plaintext_of api b);
  updated_at = p.time env.stamp.now;
}

module _ {S R : Type 0} (ts : Timestamps) (sum256 : String → Bytes) (srv : Server S R)
    (env : Readings) (Valid : S → Type 0) (view : S → View) {precision : Precision}
    (c : Contract Valid view precision srv.store) where
  open ts use {Timestamp}

  module _ (id : String) (k : Key) (w : World S R) (v : Valid w.stored) (named : id ≢ "")
      (stored : (view w.stored).keys id ≡ some k) where
    -- RevokeKey of a stored key succeeds, and afterwards VerifyKey of its plaintext answers
    -- REVOKED, whatever else the request asks, and changes nothing.
    pub revoke_key-verify :
        (later : Readings) (vreq : VerifyKeyRequest)
        → vreq.plaintext ≢ ""
        → k.key_hash ≡ sum256 vreq.plaintext
        → let w' = (revoke_key ts sum256 srv env (record { key_id = id }) w).1 in
          ((revoke_key ts sum256 srv env (record { key_id = id }) w).0 ≡ ok (record {}))
          × (verify_key sum256 srv later vreq w'
              ≡ (ok (with_result (found_response k) VerifyResult.revoked), w'))
    unfolding revoke_key found_response
    revoke_key-verify later vreq given same =
        let (n, gone) = revoke_key-Returns c w.stored v env.stamp id k stored in
        let k' = record k { enabled = false; updated_at = n } in
        let s = (srv.store.revoke_key env.stamp id w.stored).1 in
        let call : srv.store.revoke_key env.stamp id w.stored ≡ (ok tt, s) =
          λ i. (gone.result i, s) in
        let label = c.key_label w.stored v id k stored in
        rw (equal_ne id "" named) (
          rw call (
            refl,
            verify-Refusal sum256 srv later Valid view c k' vreq (record w { stored = s })
                (record {
                  valid = gone.valid;
                  stored =
                      ap (λ x. x.keys k.key_id) gone.after
                      ∙ ap (λ j. update id k' (view w.stored).keys j) label
                      ∙ update_self id k' (view w.stored).keys;
                  hash = same;
                  given = given;
                })
                (revoked refl),
          ))

    module _ (api : Api) (b : Bytes) (parent : (view w.stored).apis k.api_id ≡ some api)
        (random : env.random ≡ ok b)
        (free : HashFree (view w.stored) id (sum256 (plaintext_of api b))) where
      abbrev rotated : Key
      rotated = rotated_key precision sum256 env k api b

      abbrev after_rotation : S
      after_rotation = (srv.store.rotate_key env.stamp id (sum256 (plaintext_of api b)) w.stored).1

      rotates :
          Returns Valid view
            (srv.store.rotate_key env.stamp id (sum256 (plaintext_of api b)) w.stored)
            rotated
            (with_key id rotated (view w.stored))
      rotates = c.rotate_key w.stored v env.stamp id (sum256 (plaintext_of api b)) k stored free

      rotate_key-run : rotate_key ts sum256 srv env (record { key_id = id }) w ≡ (
        ok (record { key = key_to_proto ts rotated; plaintext = plaintext_of api b }),
        record w { stored = after_rotation },
      )
      unfolding rotate_key key_material
      rotate_key-run =
          let got : srv.store.get_key_by_id id w.stored ≡ (ok k, w.stored) =
            c.get_key_by_id w.stored v id (c.key_text w.stored v id k stored)
            ∙ ap (λ o. (found o, w.stored)) stored in
          let owner : srv.store.get_api k.api_id w.stored ≡ (ok api, w.stored) =
            c.get_api w.stored v k.api_id (c.api_text w.stored v k.api_id api parent)
            ∙ ap (λ o. (found o, w.stored)) parent in
          let full : srv.store.rotate_key env.stamp id (sum256 (plaintext_of api b)) w.stored
              ≡ (ok rotated, after_rotation) =
            λ i. (rotates.result i, after_rotation) in
          rw (equal_ne id "" named) (
            rw got (
              rw owner (
                rw (new_of_random ts sum256 srv env Valid view c api.key_prefix b random)
                  (rw full refl))))

      -- No stored key has the old hash any more.
      old_hash-gone :
          k.key_hash ≢ sum256 (plaintext_of api b)
          → (j : String) (l : Key) → (view after_rotation).keys j ≡ some l
          → l.key_hash ≢ k.key_hash
      old_hash-gone changed j l e same =
          let here : update id rotated (view w.stored).keys j ≡ some l =
            sym (ap (λ x. x.keys j) rotates.after) ∙ e in
          elim (Bool-cases (id == j)) [
            | inl hit ↦
                let taken : ◌≡◌ {A = Option Key} (some rotated) (some l) = rw hit at here in
                changed (sym same ∙ ap (λ x. x.key_hash) (some_injective (sym taken)))
            | inr miss ↦
                let kept : (view w.stored).keys j ≡ some l = rw miss at here in
                ground
                  (arith, eq_iff id j, c.hash_unique w.stored v id j k l stored kept (sym same))
          ]

      rotated-stored : (view after_rotation).keys k.key_id ≡ some rotated
      rotated-stored =
          ap (λ x. x.keys k.key_id) rotates.after
          ∙ ap (λ j. update id rotated (view w.stored).keys j) (c.key_label w.stored v id k stored)
          ∙ update_self id rotated (view w.stored).keys

      -- RotateKey of a stored key with a named id, an existing API, 32 random bytes and a hash that
      -- is new returns the new plaintext; afterwards VerifyKey of the old plaintext is not found,
      -- and VerifyKey of the new one is valid and spends one use, if the key is usable and no limit
      -- has to be asked.
      pub rotate_key-verify :
          length b ≡ Keymat.random_bytes
          → k.key_hash ≢ sum256 (plaintext_of api b)
          → (later : Readings) (old fresh : VerifyKeyRequest) → k.key_hash ≡ sum256 old.plaintext
          → fresh.plaintext ≡ plaintext_of api b
          → Usable k fresh.required_permissions later.checked_at
          → IsUnmetered k fresh
          → let (r, w') = rotate_key ts sum256 srv env (record { key_id = id }) w in
            (r ≡ ok (record { key = key_to_proto ts rotated; plaintext = fresh.plaintext }))
            × ((verify_key sum256 srv later old w' ≡ (ok not_found_response, w'))
                × Spends sum256 srv later Valid view c rotated
                    (found_response k)
                    w'
                    (verify_key sum256 srv later fresh w'))
      unfolding found_response
      rotate_key-verify full changed later old fresh was is u n = rw rotate_key-run (
        rw is refl,
        (
          verify_absent sum256 srv later Valid view c old (record w { stored = after_rotation })
              rotates.valid (λ j l e same. old_hash-gone changed j l e (same ∙ sym was)),
          verify_unmetered sum256 srv later Valid view c rotated fresh
              (record w { stored = after_rotation })
              (record {
                valid = rotates.valid;
                stored = rotated-stored;
                hash = ap sum256 (sym is);
                given = λ e. plaintext-given api.key_prefix b full (sym is ∙ e);
              })
              (record {
                enabled = u.enabled;
                live = u.live;
                credit = u.credit;
                permitted = u.permitted;
              })
              n,
        ),
      )
