-- ===== src/Server/Usable.antt =====
-- What it means that a key may be used, said without the code: the checks of `VerifyKey` before the
-- rate limit pass exactly on such keys.
use keychain.Base.{
  ◌<◌, String, ◌≡◌, ◌≢◌, ◌↔◌, ◌⊎◌, refl, true, false, Option, none, some, List, arith, Bool-cases,
  inl, inr,
}
use keychain.Base.Int.{ℤ, pos, is_zero}
use keychain.Store.{Time, Key}
use keychain.Wire.{VerifyResult}
use keychain.Server.Verify.{is_expired, has_all_permissions}
use keychain.Server.Permissions.{Includes, has_all_permissions_iff}

-- The key has no expiry, or it lies after `now`.
abbrev pub IsLive : Option Time → Time → Type 0
IsLive expires now = (t : Time) → expires ≡ some t → now < t

pub record Usable (k : Key) (required : List String) (now : Time) : Type 0 where
  pub enabled : k.enabled ≡ true
  pub live : IsLive k.expires_at now
  pub credit : k.remaining_uses ≢ pos 0
  pub permitted : Includes k.permissions required

pub is_expired-IsLive : (e : Option Time) (now : Time) → is_expired e now ≡ false → IsLive e now
unfolding is_expired
is_expired-IsLive none now h t p = cc
is_expired-IsLive (some u) now h t p = ground arith

pub live-is_expired : (e : Option Time) (now : Time) → IsLive e now → is_expired e now ≡ false
unfolding is_expired
live-is_expired none now h = refl
live-is_expired (some u) now h = ground (arith, h u refl)

pub is_zero_iff : (n : ℤ) → (is_zero n ≡ true) ↔ (n ≡ pos 0)
is_zero_iff n = ground arith

-- Why a key is refused, in the order in which the reasons take precedence.
pub data Refusal (k : Key) (required : List String) (now : Time) : VerifyResult → Type 0 where
  revoked : k.enabled ≡ false → Refusal k required now VerifyResult.revoked
  expired :
      k.enabled ≡ true → ¬ IsLive k.expires_at now → Refusal k required now VerifyResult.expired
  depleted :
      k.enabled ≡ true
      → IsLive k.expires_at now
      → k.remaining_uses ≡ pos 0
      → Refusal k required now VerifyResult.depleted
  forbidden :
      k.enabled ≡ true
      → IsLive k.expires_at now
      → k.remaining_uses ≢ pos 0
      → ¬ Includes k.permissions required
      → Refusal k required now VerifyResult.forbidden

module _ (k : Key) (required : List String) (now : Time) where
  -- A key is usable, or there is a reason to refuse it.
  pub Usable-cases : Usable k required now ⊎ ((r : VerifyResult) × Refusal k required now r)
  Usable-cases = elim (Bool-cases k.enabled) [
    | inr off ↦ inr (VerifyResult.revoked, revoked off)
    | inl on ↦ elim (Bool-cases (is_expired k.expires_at now)) [
      | inl late ↦
          inr
            (VerifyResult.expired, expired on (λ l. cc (late, live-is_expired k.expires_at now l)))
      | inr early ↦
          let live : IsLive k.expires_at now = is_expired-IsLive k.expires_at now early in
          elim (Bool-cases (is_zero k.remaining_uses)) [
            | inl spent ↦
                inr
                  (VerifyResult.depleted, depleted on live ((is_zero_iff k.remaining_uses).0 spent))
            | inr left ↦
                let credit : k.remaining_uses ≢ pos 0 =
                  λ e. cc (left, (is_zero_iff k.remaining_uses).1 e) in
                elim (Bool-cases (has_all_permissions k.permissions required)) [
                  | inl all ↦ inl (record {
                    enabled = on;
                    live = live;
                    credit = credit;
                    permitted = (has_all_permissions_iff k.permissions required).0 all;
                  })
                  | inr some_missing ↦ inr (
                    VerifyResult.forbidden,
                    forbidden on live credit (λ i.
                        cc (some_missing, (has_all_permissions_iff k.permissions required).1 i)),
                  )
                ]
          ]
    ]
  ]
