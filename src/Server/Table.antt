-- ===== src/Server/Table.antt =====
-- The decision table of `VerifyKey`: every call falls under a row, and what follows from
-- that.
use mathlib.Core.List.{Mem, mem-cons_self, mem-cons_of_mem}
use keychain.Base.{
  String, Bytes, ◌≡◌, ◌≢◌, ◌⊎◌, refl, sym, subst, true, false, none, some, List, [], ◌∷◌, arith, ok,
  err, Outcome, Bool-cases, Option-cases, inl, inr, eq_iff, ◌==◌, String-Comparable,
}
use keychain.Base.Lists.{All}
use keychain.Store.{Key, Err}
use keychain.Store.Contract.{Precision, View, Contract}
use keychain.Wire.{VerifyResult, VerifyKeyRequest, VerifyKeyResponse}
use keychain.Server.{
  Server, World, Readings, RateLimiter, LimitDecision, Status, status, failed_precondition,
  unavailable, text, labelled,
}
use keychain.Server.Verify.{verify_key, limit_cost, found_response, not_found_response, with_result}
use keychain.Server.Usable.{Usable, Refusal, Usable-cases}
use keychain.Server.Decision.{Spends, verify_absent, verify_blank}
use keychain.Server.Metering.{
  IsMetered, IsUnmetered, metered_response, Presents, verify-Refusal, verify_unmetered,
  verify_unwired, verify_unavailable, verify_rate_limited, verify_allowed,
}

-- Either all limits allow the call, or one denies it.
allowed_cases :
    (ds : List LimitDecision)
    → All (λ d. d.allowed ≡ true) ds ⊎ ((d : LimitDecision) × Mem d ds × (d.allowed ≡ false))
allowed_cases [] = inl tt
allowed_cases (d ∷ ds) = elim (Bool-cases d.allowed) [
  | inr no_pass ↦ inr (d, mem-cons_self, no_pass)
  | inl pass ↦ elim (allowed_cases ds) [
    | inl rest ↦ inl (pass, rest)
    | inr (e, m, h) ↦ inr (e, mem-cons_of_mem d m, h)
  ]
]

nil_cases {ℓ} : {A : Type ℓ} (xs : List A) → (xs ≡ []) ⊎ (xs ≢ [])
nil_cases [] = inl refl
nil_cases (x ∷ xs) = inr (λ e. cc)

IsMetered-cases : (k : Key) (req : VerifyKeyRequest) → IsMetered k req ⊎ IsUnmetered k req
IsMetered-cases k req = elim (Bool-cases req.skip_ratelimit) [
  | inl skip ↦ inr (inl skip)
  | inr ask ↦ elim (nil_cases k.limit_refs) [ inl e ↦ inr (inr e) | inr n ↦ inl (ask, n) ]
]

module _ {S R : Type 0} (sum256 : String → Bytes) (srv : Server S R) (env : Readings)
    (Valid : S → Type 0) (view : S → View) {precision : Precision}
    (c : Contract Valid view precision srv.store) where
  abbrev pub Grants :
      Key → VerifyKeyResponse → World S R → Outcome Status VerifyKeyResponse × World S R → Type 0
  Grants = Spends sum256 srv env Valid view c

  abbrev pub Shows : Key → VerifyKeyRequest → World S R → Type 0
  Shows = Presents sum256 srv env Valid view c

  -- What the rate limiter answers to the call.
  abbrev pub Asked :
      RateLimiter R
      → Key
      → VerifyKeyRequest
      → World S R
      → Outcome Err (List LimitDecision) × R
      → Type 0
  Asked rl k req w a = rl.consume k.limit_refs (limit_cost req.cost) req.request_id w.limiter ≡ a

  abbrev pub Fit : Key → VerifyKeyRequest → Type 0
  Fit k req = Usable k req.required_permissions env.checked_at

  pub data Decision (req : VerifyKeyRequest) (w : World S R)
      (r : Outcome Status VerifyKeyResponse × World S R) : Type 0 where
    blank : req.plaintext ≡ "" → r ≡ (ok not_found_response, w) → Decision req w r
    absent :
        ((id : String) (k : Key)
          → (view w.stored).keys id ≡ some k
          → k.key_hash ≢ sum256 req.plaintext)
        → r ≡ (ok not_found_response, w)
        → Decision req w r
    refused :
        (k : Key) (v : VerifyResult)
        → Shows k req w
        → Refusal k req.required_permissions env.checked_at v
        → r ≡ (ok (with_result (found_response k) v), w)
        → Decision req w r
    unmetered :
        (k : Key)
        → Shows k req w
        → Fit k req
        → IsUnmetered k req
        → Grants k (found_response k) w r
        → Decision req w r
    unwired :
        (k : Key)
        → Shows k req w
        → Fit k req
        → IsMetered k req
        → srv.rl ≡ none
        → r ≡ (
          err (
              status failed_precondition
                (text "rate-limiter client not configured but key has limit_refs")),
          w,
        )
        → Decision req w r
    unreachable :
        (k : Key) (rl : RateLimiter R) (e : Err) (l : R)
        → Shows k req w
        → Fit k req
        → IsMetered k req
        → srv.rl ≡ some rl
        → Asked rl k req w (err e, l)
        → r
          ≡ (err (status unavailable (labelled "rate-limiter consume" e)), record w { limiter = l })
        → Decision req w r
    denied :
        (k : Key) (rl : RateLimiter R) (ds : List LimitDecision) (l : R) (d : LimitDecision)
        → Shows k req w
        → Fit k req
        → IsMetered k req
        → srv.rl ≡ some rl
        → Asked rl k req w (ok ds, l)
        → Mem d ds
        → d.allowed ≡ false
        → r ≡ (
          ok (with_result (metered_response k ds) VerifyResult.rate_limited),
          record w { limiter = l },
        )
        → Decision req w r
    allowed :
        (k : Key) (rl : RateLimiter R) (ds : List LimitDecision) (l : R)
        → Shows k req w
        → Fit k req
        → IsMetered k req
        → srv.rl ≡ some rl
        → Asked rl k req w (ok ds, l)
        → All (λ d. d.allowed ≡ true) ds
        → Grants k (metered_response k ds) (record w { limiter = l }) r
        → Decision req w r

  verify-answered :
      (k : Key) (req : VerifyKeyRequest) (w : World S R) (p : Shows k req w) (u : Fit k req)
      (m : IsMetered k req) (rl : RateLimiter R) (wired : srv.rl ≡ some rl)
      (o : Outcome Err (List LimitDecision)) (l : R)
      → Asked rl k req w (o, l)
      → Decision req w (verify_key sum256 srv env req w)
  verify-answered k req w p u m rl wired (err e) l a =
      unreachable k rl e l p u m wired a
        (verify_unavailable sum256 srv env Valid view c k req w p u m rl wired l e a)
  verify-answered k req w p u m rl wired (ok ds) l a = elim (allowed_cases ds) [
    | inl all ↦
        allowed k rl ds l p u m wired a all
          (verify_allowed sum256 srv env Valid view c k req w p u m rl wired l ds a all)
    | inr (d, i, no_pass) ↦
        denied k rl ds l d p u m wired a i no_pass (
          verify_rate_limited sum256 srv env Valid view c k req w p u m rl wired l ds d a i no_pass)
  ]

  verify-usable :
      (k : Key) (req : VerifyKeyRequest) (w : World S R) (p : Shows k req w) (u : Fit k req)
      → Decision req w (verify_key sum256 srv env req w)
  verify-usable k req w p u = elim (IsMetered-cases k req) [
    | inr n ↦ unmetered k p u n (verify_unmetered sum256 srv env Valid view c k req w p u n)
    | inl m ↦ elim (Option-cases srv.rl) [
      | inl e ↦ unwired k p u m e (verify_unwired sum256 srv env Valid view c k req w p u m e)
      | inr (rl, e) ↦
          let answer = rl.consume k.limit_refs (limit_cost req.cost) req.request_id w.limiter in
          verify-answered k req w p u m rl e answer.0 answer.1 refl
    ]
  ]

  verify-presented :
      (k : Key) (req : VerifyKeyRequest) (w : World S R)
      → Shows k req w
      → Decision req w (verify_key sum256 srv env req w)
  verify-presented k req w p = elim (Usable-cases k req.required_permissions env.checked_at) [
    | inl u ↦ verify-usable k req w p u
    | inr (v, f) ↦ refused k v p f (verify-Refusal sum256 srv env Valid view c k req w p f)
  ]

  -- On every valid store, for every request, every rate limiter and every reading of the clock,
  -- VerifyKey falls under a row of the decision table: blank or unknown plaintext is not found; a
  -- stored key is refused as revoked, expired, depleted or forbidden, in that precedence; a usable
  -- key is valid and spends one use when no limit has to be asked or every limit allows it; it is
  -- rate limited when one denies it; and the call fails closed when there is no rate limiter or it
  -- fails. Each row states the response or error and the effect on the store.
  pub verify-Decision :
      (req : VerifyKeyRequest) (w : World S R)
      → Valid w.stored
      → Decision req w (verify_key sum256 srv env req w)
  verify-Decision req w v = elim (Bool-cases (req.plaintext == "")) [
    | inl e ↦
        let gone = (eq_iff req.plaintext "").0 e in
        blank gone (verify_blank sum256 srv env req w gone)
    | inr n ↦ elim (c.hash_cases w.stored v (sum256 req.plaintext)) [
      | inr none_has ↦ absent none_has (verify_absent sum256 srv env Valid view c req w v none_has)
      | inl (id, k, stored, same) ↦ verify-presented k req w (record {
        valid = v;
        stored =
            subst (λ j. (view w.stored).keys j ≡ some k) (sym (c.key_label w.stored v id k stored))
              stored;
        hash = same;
        given = λ e. ground (arith, eq_iff req.plaintext "");
      })
    ]
  ]
