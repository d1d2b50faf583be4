-- ===== src/Store/Revoking.antt =====
-- A revocation, whether the key is enabled or revoked already.
use keychain.Base.{String, ◌≡◌, inl, inr, subst, false, some, Bool-cases}
use keychain.Store.{Time, Key, Stamp, Store}
use keychain.Store.Contract.{View, Precision, Contract, Returns, with_key}

module _ {S : Type 0} {Valid : S → Type 0} {view : S → View} {p : Precision} {st : Store S}
    (c : Contract Valid view p st) where
  -- The key is not enabled afterwards, and only the instant of its update may differ otherwise.
  pub revoke_key-Returns :
      (s : S)
      → Valid s
      → (t : Stamp) (id : String) (k : Key) → (view s).keys id ≡ some k
      → (n : Time) × Returns Valid view
          (st.revoke_key t id s)
          tt
          (with_key id (record k { enabled = false; updated_at = n }) (view s))
  revoke_key-Returns s v t id k e = elim (Bool-cases k.enabled) [
    | inl on ↦ (p.time t.now, c.revoke_key s v t id k e on)
    | inr off ↦ (
      p.updated_again t.now k.updated_at,
      subst
          (λ b. Returns Valid view (st.revoke_key t id s) tt (
            with_key id (record k { enabled = b; updated_at = p.updated_again t.now k.updated_at })
              (view s)))
          off (c.revoke_key_again s v t id k e off),
    )
  ]
