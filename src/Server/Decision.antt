-- ===== src/Server/Decision.antt =====
-- The stages of `VerifyKey` on a key that the store holds.
use mathlib.Core.Path.{fun_ext}
use keychain.Base.{
  String, String-Comparable, Bytes, ◌≡◌, ◌≢◌, refl, ap, ◌∙◌, true, false, Option, some, List, arith,
  ok, Outcome, Bool-cases, inl, inr, if◌then◌else◌, eq_iff, ◌==◌, equal_refl, equal_ne, subst,
}
use keychain.Base.Int.{ℤ, pos, is_zero, is_pos, pred}
use keychain.Store.{Time, Key}
use keychain.Base.Map.{update}
use keychain.Store.Contract.{Precision, View, Contract, with_key}
use keychain.Keymat.{validate, hash}
use keychain.Wire.{VerifyResult, VerifyKeyRequest, VerifyKeyResponse}
use keychain.Server.{Server, World, Readings, Status}
use keychain.Server.Verify.{
  verify_key, after_lookup, check, limit, spend, after_decrement, finish, found_response,
  not_found_response, with_result, is_expired, has_all_permissions,
}
use keychain.Server.Permissions.{Includes, has_all_permissions_iff}
use keychain.Server.Usable.{
  IsLive, Usable, Refusal, revoked, expired, depleted, forbidden, is_expired-IsLive,
  live-is_expired, is_zero_iff,
}

update-update :
    {V : Type 0} (id : String) (a b : V) (f : String → Option V)
    → update id a (update id b f) ≡ update id a f
update-update id a b f = fun_ext λ j. ground arith

pub update_self :
    {V : Type 0} (id : String) (a : V) (f : String → Option V) → update id a f id ≡ some a
update_self id a f = rw (equal_refl id)

-- The credit that a valid decision leaves.
abbrev pub left_after : ℤ → ℤ
left_after n = if is_pos n then pred n else n

abbrev pub updated_after : ℤ → Time → Time → Time
updated_after n now old = if is_pos n then now else old

-- The stored key after a valid decision: one use fewer if the key is capped, and the time of the
-- touch.
abbrev pub spent_key : Precision → Readings → Key → Key
spent_key p env k = record k {
  remaining_uses = left_after k.remaining_uses;
  updated_at = updated_after k.remaining_uses (p.time env.stamp.now) k.updated_at;
  last_verified_at = some (p.time env.touched_at);
}

abbrev pub granted : VerifyKeyResponse → VerifyKeyResponse
granted resp = record resp { valid = true; result = VerifyResult.valid }

is_expired_of_not-live : (e : Option Time) (now : Time) → ¬ IsLive e now → is_expired e now ≡ true
is_expired_of_not-live e now h = elim (Bool-cases (is_expired e now)) [
  | inl t ↦ t
  | inr f ↦ absurd (h (is_expired-IsLive e now f))
]

is_zero_of_ne : (n : ℤ) → n ≢ pos 0 → is_zero n ≡ false
is_zero_of_ne n h = elim (Bool-cases (is_zero n)) [
  | inl t ↦ absurd (h ((is_zero_iff n).0 t))
  | inr f ↦ f
]

has_all_of_not-Includes :
    (have required : List String)
    → ¬ Includes have required
    → has_all_permissions have required ≡ false
has_all_of_not-Includes have required h = elim (Bool-cases (has_all_permissions have required)) [
  | inl t ↦ absurd (h ((has_all_permissions_iff have required).0 t))
  | inr f ↦ f
]

module _ {S R : Type 0} (sum256 : String → Bytes) (srv : Server S R) (env : Readings) where
  -- A refusal is reported with the key's identity, and nothing is written.
  pub check-Refusal :
      (k : Key) (req : VerifyKeyRequest) (w : World S R) {r : VerifyResult}
      → Refusal k req.required_permissions env.checked_at r
      → check sum256 srv env k req w ≡ (ok (with_result (found_response k) r), w)
  unfolding check
  check-Refusal k req w (revoked off) = rw off
  check-Refusal k req w (expired on late) =
      rw (on, is_expired_of_not-live k.expires_at env.checked_at late)
  check-Refusal k req w (depleted on live spent) =
      rw (
        on,
        live-is_expired k.expires_at env.checked_at live,
        (is_zero_iff k.remaining_uses).1 spent,
      )
  check-Refusal k req w (forbidden on live credit missing) = rw (
    on,
    live-is_expired k.expires_at env.checked_at live,
    is_zero_of_ne k.remaining_uses credit,
    has_all_of_not-Includes k.permissions req.required_permissions missing,
  )

  pub verify_blank :
      (req : VerifyKeyRequest) (w : World S R)
      → req.plaintext ≡ ""
      → verify_key sum256 srv env req w ≡ (ok not_found_response, w)
  unfolding verify_key validate
  verify_blank req w e = rw ((eq_iff req.plaintext "").1 e, verify_key)

  pub check-Usable :
      (k : Key) (req : VerifyKeyRequest) (w : World S R)
      → Usable k req.required_permissions env.checked_at
      → check sum256 srv env k req w ≡ limit sum256 srv env k req (found_response k) w
  unfolding check
  check-Usable k req w u = rw (
    u.enabled,
    live-is_expired k.expires_at env.checked_at u.live,
    is_zero_of_ne k.remaining_uses u.credit,
    (has_all_permissions_iff k.permissions req.required_permissions).1 u.permitted,
  )

  module _ (Valid : S → Type 0) (view : S → View) {precision : Precision}
      (c : Contract Valid view precision srv.store) where
    -- The rest of the handler, from the decrement on, returned a valid decision and spent one use.
    pub record Spends (k : Key) (resp : VerifyKeyResponse) (w : World S R)
        (r : Outcome Status VerifyKeyResponse × World S R) : Type 0 where
      pub result : r.0 ≡ ok (granted resp)
      pub valid : Valid r.1.stored
      pub after : view r.1.stored ≡ with_key k.key_id (spent_key precision env k) (view w.stored)
      pub limiter : r.1.limiter ≡ w.limiter

    finish-Spends :
        (k : Key) (resp : VerifyKeyResponse) (w : World S R)
        → Valid w.stored
        → (view w.stored).keys k.key_id ≡ some k
        → is_pos k.remaining_uses ≡ false
        → Spends k resp w (finish sum256 srv env k resp w)
    unfolding finish
    finish-Spends k resp w v e unlimited =
        let t = c.touch w.stored v k.key_id env.touched_at k e in
        record { result = refl; valid = t.valid; after = rw unlimited t.after; limiter = refl }

    capped-Spends :
        (k : Key) (resp : VerifyKeyResponse) (w : World S R)
        → Valid w.stored
        → (view w.stored).keys k.key_id ≡ some k
        → is_pos k.remaining_uses ≡ true
        → let s = (srv.store.decrement_remaining_uses env.stamp k.key_id w.stored).1 in
          Spends k resp w (finish sum256 srv env k resp (record w { stored = s }))
    unfolding finish
    capped-Spends k resp w v e capped =
        let k' = record k {
          remaining_uses = pred k.remaining_uses;
          updated_at = precision.time env.stamp.now;
        } in
        let d = c.decrement w.stored v env.stamp k.key_id k e capped in
        let s = (srv.store.decrement_remaining_uses env.stamp k.key_id w.stored).1 in
        let t =
          c.touch s d.valid k.key_id env.touched_at k'
            (rw d.after (update_self k.key_id k' (view w.stored).keys)) in
        record {
          result = refl;
          valid = t.valid;
          after = rw capped (
              t.after
              ∙ ap
                  (with_key k.key_id
                    (record k' { last_verified_at = some (precision.time env.touched_at) }))
                  d.after
              ∙ (λ i. record (view w.stored) {
                keys =
                    update-update k.key_id
                      (record k' { last_verified_at = some (precision.time env.touched_at) }) k'
                      (view w.stored).keys i;
              }));
          limiter = refl;
        }

    -- A key with credit is granted, and one use is spent.
    pub spend-Spends :
        (k : Key) (resp : VerifyKeyResponse) (w : World S R)
        → Valid w.stored
        → (view w.stored).keys k.key_id ≡ some k
        → Spends k resp w (spend sum256 srv env k resp w)
    unfolding spend after_decrement
    spend-Spends k resp w v e = elim (Bool-cases (is_pos k.remaining_uses)) [
      | inl capped ↦
          let d = c.decrement w.stored v env.stamp k.key_id k e capped in
          rw capped (rw (d.result, after_decrement) (capped-Spends k resp w v e capped))
      | inr unlimited ↦ rw unlimited (finish-Spends k resp w v e unlimited)
    ]

    -- On a stored key, the lookup by hash leads to the checks.
    pub verify-check :
        (k : Key) (id : String) (req : VerifyKeyRequest) (w : World S R)
        → Valid w.stored
        → (view w.stored).keys id ≡ some k
        → k.key_hash ≡ sum256 req.plaintext
        → req.plaintext ≢ ""
        → verify_key sum256 srv env req w ≡ check sum256 srv env k req w
    unfolding verify_key after_lookup validate hash
    verify-check k id req w v e same given =
        let hit : srv.store.get_key_by_hash (sum256 req.plaintext) w.stored ≡ (ok k, w.stored) =
          subst (λ h. srv.store.get_key_by_hash h w.stored ≡ (ok k, w.stored)) same
            (c.get_key_by_hash_hit w.stored v id k e) in
        rw (equal_ne req.plaintext "" given, verify_key) (rw (hit, after_lookup))

    -- A plaintext whose hash no key has is not found, and the world is left alone.
    pub verify_absent :
        (req : VerifyKeyRequest) (w : World S R)
        → Valid w.stored
        → ((id : String) (k : Key)
            → (view w.stored).keys id ≡ some k
            → k.key_hash ≢ sum256 req.plaintext)
        → verify_key sum256 srv env req w ≡ (ok not_found_response, w)
    unfolding verify_key after_lookup validate hash
    verify_absent req w v absent = elim (Bool-cases (req.plaintext == "")) [
      | inl blank ↦ rw (blank, verify_key)
      | inr given ↦
          rw (given, verify_key)
            (rw (c.get_key_by_hash_miss w.stored v (sum256 req.plaintext) absent, after_lookup))
    ]
