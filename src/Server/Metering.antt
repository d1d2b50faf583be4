-- ===== src/Server/Metering.antt =====
-- The rate limit of `VerifyKey`, on a usable key that the store holds.
use mathlib.Core.List.{Mem, mem-cons, not-mem-nil}
use mathlib.Core.Bool.{Bool-set}
use mathlib.Core.Logic.Or
use keychain.Base.{
  String, Bytes, ◌≡◌, ◌≢◌, ◌⊎◌, refl, sym, ap, subst, ◌∙◌, true, false, Option, none, some, List,
  [], ◌∷◌, arith, ok, err, Outcome, inl, inr,
}
use keychain.Base.Lists.{All, any}
use keychain.Store.{Key, Err}
use keychain.Store.Contract.{Precision, View, Contract}
use keychain.Wire.{VerifyResult, VerifyKeyRequest, VerifyKeyResponse}
use keychain.Server.{
  Server, World, Readings, RateLimiter, LimitDecision, Status, status, failed_precondition,
  unavailable, text, labelled,
}
use keychain.Server.Convert.{limit_decisions_to_proto}
use keychain.Server.Verify.{
  verify_key, limit, consume_limits, after_consume, spend, any_denied, limit_cost, found_response,
  with_result,
}
use keychain.Server.Usable.{Usable, Refusal}
use keychain.Server.Decision.{Spends, spend-Spends, check-Usable, check-Refusal, verify-check}

-- The rate limiter is asked about the key.
abbrev pub IsMetered : Key → VerifyKeyRequest → Type 0
IsMetered k req = (req.skip_ratelimit ≡ false) × (k.limit_refs ≢ [])

-- It is not asked.
abbrev pub IsUnmetered : Key → VerifyKeyRequest → Type 0
IsUnmetered k req = (req.skip_ratelimit ≡ true) ⊎ (k.limit_refs ≡ [])

-- The response that carries the decisions.
abbrev pub metered_response : Key → List LimitDecision → VerifyKeyResponse
metered_response k ds = record (found_response k) { limit_decisions = limit_decisions_to_proto ds }

All-allowed : (ds : List LimitDecision) → All (λ d. d.allowed ≡ true) ds → any_denied ds ≡ false
unfolding any_denied any
All-allowed [] h = refl
All-allowed (d ∷ ds) h = rw h.0 (All-allowed ds h.1)

denied-any :
    (ds : List LimitDecision) (d : LimitDecision)
    → Mem d ds
    → d.allowed ≡ false
    → any_denied ds ≡ true
unfolding any_denied any
denied-any [] d m h = absurd (not-mem-nil m)
denied-any (x ∷ ds) d m h =
    Or.elim (Bool-set _ _) (mem-cons.0 m) (λ e. rw (← e, h))
      (λ r. let rest = denied-any ds d r h in ground (arith, rest))

module _ {S R : Type 0} (sum256 : String → Bytes) (srv : Server S R) (env : Readings) where
  limit-unmetered :
      (k : Key) (req : VerifyKeyRequest) (resp : VerifyKeyResponse) (w : World S R)
      → IsUnmetered k req
      → limit sum256 srv env k req resp w ≡ spend sum256 srv env k resp w
  unfolding limit
  limit-unmetered k req resp w (inl skip) = rw skip
  limit-unmetered k req resp w (inr none_set) = ground arith

  limit-metered :
      (k : Key) (req : VerifyKeyRequest) (resp : VerifyKeyResponse) (w : World S R)
      → IsMetered k req
      → limit sum256 srv env k req resp w ≡ consume_limits sum256 srv env srv.rl k req resp w
  unfolding limit
  limit-metered k req resp w m = ground arith

  module _ (Valid : S → Type 0) (view : S → View) {precision : Precision}
      (c : Contract Valid view precision srv.store) where
    -- The request presents the plaintext of the stored key `k`.
    pub record Presents (k : Key) (req : VerifyKeyRequest) (w : World S R) : Type 0 where
      pub valid : Valid w.stored
      pub stored : (view w.stored).keys k.key_id ≡ some k
      pub hash : k.key_hash ≡ sum256 req.plaintext
      pub given : req.plaintext ≢ ""

    abbrev Grants :
        Key → VerifyKeyResponse → World S R → Outcome Status VerifyKeyResponse × World S R → Type 0
    Grants = Spends sum256 srv env Valid view c

    module _ (k : Key) (req : VerifyKeyRequest) (w : World S R) (p : Presents k req w) where
      -- VerifyKey of the plaintext of a stored key that is revoked, expired, depleted or lacks a
      -- permission gives that result, by that precedence, with the identity of the key, and changes
      -- neither the store nor the rate limiter.
      pub verify-Refusal :
          {r : VerifyResult}
          → Refusal k req.required_permissions env.checked_at r
          → verify_key sum256 srv env req w ≡ (ok (with_result (found_response k) r), w)
      verify-Refusal f =
          verify-check sum256 srv env Valid view c k k.key_id req w p.valid p.stored p.hash p.given
          ∙ check-Refusal sum256 srv env k req w f

      module _ (u : Usable k req.required_permissions env.checked_at) where
        verify-limit :
            verify_key sum256 srv env req w ≡ limit sum256 srv env k req (found_response k) w
        verify-limit =
            verify-check sum256 srv env Valid view c k k.key_id req w p.valid p.stored p.hash
              p.given
            ∙ check-Usable sum256 srv env k req w u

        -- A usable key with no rate limit to ask is valid, and one use is spent.
        pub verify_unmetered :
            IsUnmetered k req → Grants k (found_response k) w (verify_key sum256 srv env req w)
        verify_unmetered n =
            subst (Grants k (found_response k) w)
              (sym (verify-limit ∙ limit-unmetered k req (found_response k) w n))
              (spend-Spends sum256 srv env Valid view c k (found_response k) w p.valid p.stored)

        module _ (m : IsMetered k req) where
          verify-consume :
              (o : Option (RateLimiter R))
              → srv.rl ≡ o
              → verify_key sum256 srv env req w
                ≡ consume_limits sum256 srv env o k req (found_response k) w
          verify-consume o e =
              verify-limit
              ∙ limit-metered k req (found_response k) w m
              ∙ ap (λ x. consume_limits sum256 srv env x k req (found_response k) w) e

          -- VerifyKey of a usable key with limits to ask fails with FailedPrecondition at a server
          -- without a rate limiter, and changes nothing.
          pub verify_unwired :
              srv.rl ≡ none
              → verify_key sum256 srv env req w ≡ (
                err (
                    status failed_precondition
                      (text "rate-limiter client not configured but key has limit_refs")),
                w,
              )
          unfolding consume_limits
          verify_unwired e = verify-consume none e

          module _ (rl : RateLimiter R) (wired : srv.rl ≡ some rl) (l : R) where
            abbrev Answers : Outcome Err (List LimitDecision) → Type 0
            Answers r =
                rl.consume k.limit_refs (limit_cost req.cost) req.request_id w.limiter ≡ (r, l)

            -- VerifyKey of a usable key with limits to ask fails with Unavailable if the rate
            -- limiter returns an error, and the store is unchanged.
            pub verify_unavailable :
                (e : Err)
                → Answers (err e)
                → verify_key sum256 srv env req w ≡ (
                  err (status unavailable (labelled "rate-limiter consume" e)),
                  record w { limiter = l },
                )
            unfolding consume_limits
            verify_unavailable e a = verify-consume (some rl) wired ∙ rw (a, consume_limits)

            verify-after :
                (ds : List LimitDecision)
                → Answers (ok ds)
                → verify_key sum256 srv env req w
                  ≡ after_consume sum256 srv env k (found_response k) ds (record w { limiter = l })
            unfolding consume_limits
            verify-after ds a = verify-consume (some rl) wired ∙ rw (a, consume_limits)

            -- VerifyKey of a usable key with limits to ask is RATE_LIMITED if the rate limiter
            -- answers with a decision that denies it; the response carries every decision, and the
            -- store is unchanged.
            pub verify_rate_limited :
                (ds : List LimitDecision) (d : LimitDecision)
                → Answers (ok ds)
                → Mem d ds
                → d.allowed ≡ false
                → verify_key sum256 srv env req w ≡ (
                  ok (with_result (metered_response k ds) VerifyResult.rate_limited),
                  record w { limiter = l },
                )
            unfolding after_consume
            verify_rate_limited ds d a i denied = verify-after ds a ∙ rw (denied-any ds d i denied)

            -- VerifyKey of a usable key with limits to ask is valid and spends one use if the rate
            -- limiter answers and every decision allows it; the response carries the decisions.
            pub verify_allowed :
                (ds : List LimitDecision)
                → Answers (ok ds)
                → All (λ d. d.allowed ≡ true) ds
                → Grants k
                    (metered_response k ds)
                    (record w { limiter = l })
                    (verify_key sum256 srv env req w)
            unfolding after_consume
            verify_allowed ds a h =
                subst (Grants k (metered_response k ds) (record w { limiter = l }))
                  (sym (verify-after ds a ∙ rw (All-allowed ds h)))
                  (spend-Spends sum256 srv env Valid view c k (metered_response k ds)
                    (record w { limiter = l }) p.valid p.stored)
