-- ===== src/Command/FailClosed.antt =====
-- The service with the rate limiter that main.go wires.
use mathlib.Core.List.{Mem, mem-cons_self}
use keychain.Base.{String, Bytes, ◌≡◌, ◌≢◌, refl, sym, subst, false, some, List, [], ◌∷◌, map, ok}
use keychain.Store.{Store, Key, LimitRef}
use keychain.Store.Contract.{Contract, Precision, View}
use keychain.Wire.{VerifyResult, VerifyKeyRequest}
use keychain.Server.{Server, World, Readings, LimitDecision}
use keychain.Server.Verify.{verify_key, with_result}
use keychain.Server.Usable.{Usable}
use keychain.Server.Metering.{Presents, IsMetered, metered_response, verify_rate_limited}
use keychain.Command.{denied, fail_closed}

abbrev pub fail_closed_server : {S : Type 0} → Store S → Server S (Unit {0})
fail_closed_server st = record { store = st; rl = some fail_closed }

some-denied :
    (refs rs : List LimitRef)
    → refs ≡ rs
    → refs ≢ []
    → (d : LimitDecision) × Mem d (map denied refs) × (d.allowed ≡ false)
some-denied refs [] e given = absurd (given e)
some-denied refs (r ∷ rs) e given =
    (denied r, subst (λ rs. Mem (denied r) (map denied rs)) (sym e) mem-cons_self, refl)

module _ {S : Type 0} (sum256 : String → Bytes) (st : Store S) (env : Readings) (Valid : S → Type 0)
    (view : S → View) {precision : Precision} (c : Contract Valid view precision st) where
  -- With the rate limiter of main.go, VerifyKey of a usable key that has limit references is
  -- RATE_LIMITED with one denying decision for each of them, unless the request skips the rate
  -- limit; neither the store nor the rate limiter changes.
  pub fail_closed-denies :
      (k : Key) (req : VerifyKeyRequest) (w : World S (Unit {0}))
      → Presents sum256 (fail_closed_server st) env Valid view c k req w
      → Usable k req.required_permissions env.checked_at
      → IsMetered k req
      → verify_key sum256 (fail_closed_server st) env req w ≡ (
        ok (with_result (metered_response k (map denied k.limit_refs)) VerifyResult.rate_limited),
        w,
      )
  fail_closed-denies k req w p u m =
      let (d, i, no_more) = some-denied k.limit_refs k.limit_refs refl m.1 in
      verify_rate_limited sum256 (fail_closed_server st) env Valid view c k req w p u m fail_closed
        refl tt (map denied k.limit_refs) d refl i no_more
