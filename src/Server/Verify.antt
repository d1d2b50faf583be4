-- ===== src/Server/Verify.antt =====
-- `VerifyKey` of server.go and its helpers.
use keychain.Base.{
  String, Bool, true, false, not, ◌&&◌, Option, none, some, List, [], ◌∷◌, Outcome, ok, err, Action,
  Bytes, pure, fail, ◌>>=◌, ◌==◌, String-Comparable, if◌then◌else◌, leb,
}
use keychain.Base.Int.{ℤ, pos, is_pos, is_zero}
use keychain.Base.Lists.{any}
use keychain.Store.{Time, Err, errors_is, Sentinel, Key}
use keychain.Keymat.{validate, hash}
use keychain.Wire.{VerifyResult, VerifyKeyRequest, VerifyKeyResponse}
use keychain.Server.{
  Server, World, Readings, RateLimiter, LimitDecision, Status, status, internal, unavailable,
  failed_precondition, text, labelled, call_store, call_limiter, or_status,
}
use keychain.Server.Convert.{limit_decisions_to_proto}

-- A response with no fields set but the result.
unfoldable pub not_found_response : VerifyKeyResponse
not_found_response = record {
  valid = false;
  result = VerifyResult.not_found;
  key_id = "";
  api_id = "";
  workspace_id = "";
  owner_principal_id = "";
  permissions = [];
  limit_decisions = [];
}

-- limitCost, with defaultLimitCost = 1
unfoldable pub limit_cost : ℤ → ℤ
limit_cost cost = if is_pos cost then cost else pos 1

-- `_, ok := set[p]`, for the set of the strings in `have`
unfoldable pub in_set : List String → String → Bool
in_set have p = any (λ q. q == p) have

unfoldable pub has_all_permissions : List String → List String → Bool
unfolding in_set
has_all_permissions have [] = true
has_all_permissions have (p ∷ required) =
    if in_set have p then has_all_permissions have required else false

-- k.ExpiresAt != nil && !now.Before(*k.ExpiresAt)
unfoldable pub is_expired : Option Time → Time → Bool
is_expired none now = false
is_expired (some at) now = leb at now

-- len(xs) > 0
abbrev nonempty : {A : Type 0} → List A → Bool
nonempty [] = false
nonempty (x ∷ xs) = true

-- The loop over the decisions finds one that is not allowed.
unfoldable pub any_denied : List LimitDecision → Bool
any_denied = any λ d. not d.allowed

-- The response that names the key, before the decision.
unfoldable pub found_response : Key → VerifyKeyResponse
found_response k = record {
  valid = false;
  result = VerifyResult.unspecified;
  key_id = k.key_id;
  api_id = k.api_id;
  workspace_id = k.workspace_id;
  owner_principal_id = k.owner_principal_id;
  permissions = k.permissions;
  limit_decisions = [];
}

abbrev pub with_result : VerifyKeyResponse → VerifyResult → VerifyKeyResponse
with_result resp r = record resp { result = r }

module _ {S R : Type 0} (sum256 : String → Bytes) (srv : Server S R) (env : Readings) where
  -- From the touch to the end; the touch's error is dropped.
  unfoldable pub finish : Key → VerifyKeyResponse → Action (World S R) Status VerifyKeyResponse
  finish k resp w =
      let touched = call_store (srv.store.touch_last_verified k.key_id env.touched_at) w in
      (ok (record resp { valid = true; result = VerifyResult.valid }), touched.1)

  unfoldable pub after_decrement :
      Key → VerifyKeyResponse → Outcome Err ℤ → Action (World S R) Status VerifyKeyResponse
  unfolding finish
  after_decrement k resp (ok _) = finish k resp
  after_decrement k resp (err e) =
      if errors_is e Sentinel.depleted
      then pure (with_result resp VerifyResult.depleted)
      else fail (status internal (labelled "decrement remaining uses" e))

  -- From the decrement to the end.
  unfoldable pub spend : Key → VerifyKeyResponse → Action (World S R) Status VerifyKeyResponse
  unfolding after_decrement
  spend k resp w =
      if is_pos k.remaining_uses
      then (let (r, w') = call_store (srv.store.decrement_remaining_uses env.stamp k.key_id) w in
          after_decrement k resp r w')
      else finish k resp w

  unfoldable pub after_consume :
      Key → VerifyKeyResponse → List LimitDecision → Action (World S R) Status VerifyKeyResponse
  unfolding spend any_denied limit_decisions_to_proto
  after_consume k resp decisions =
      let resp' = record resp { limit_decisions = limit_decisions_to_proto decisions } in
      if any_denied decisions
      then pure (with_result resp' VerifyResult.rate_limited)
      else spend k resp'

  unfoldable pub consume_limits :
      Option (RateLimiter R)
      → Key
      → VerifyKeyRequest
      → VerifyKeyResponse
      → Action (World S R) Status VerifyKeyResponse
  unfolding after_consume limit_cost
  consume_limits none k req resp = fail (
      status failed_precondition (text "rate-limiter client not configured but key has limit_refs"))
  consume_limits (some rl) k req resp = do
    decisions ←
        or_status (λ e. status unavailable (labelled "rate-limiter consume" e))
          (call_limiter (rl.consume k.limit_refs (limit_cost req.cost) req.request_id))
    after_consume k resp decisions

  -- From the rate limit to the end.
  unfoldable pub limit :
      Key → VerifyKeyRequest → VerifyKeyResponse → Action (World S R) Status VerifyKeyResponse
  unfolding consume_limits
  limit k req resp =
      if not req.skip_ratelimit && nonempty k.limit_refs
      then consume_limits srv.rl k req resp
      else spend k resp

  -- The checks on the key that was found, cheapest first.
  unfoldable pub check : Key → VerifyKeyRequest → Action (World S R) Status VerifyKeyResponse
  unfolding limit found_response is_expired has_all_permissions
  check k req =
      let resp = found_response k in
      if not k.enabled
      then pure (with_result resp VerifyResult.revoked)
      else if is_expired k.expires_at env.checked_at
      then pure (with_result resp VerifyResult.expired)
      else if is_zero k.remaining_uses
      then pure (with_result resp VerifyResult.depleted)
      else if not (has_all_permissions k.permissions req.required_permissions)
      then pure (with_result resp VerifyResult.forbidden)
      else limit k req resp

  unfoldable pub after_lookup :
      VerifyKeyRequest → Outcome Err Key → Action (World S R) Status VerifyKeyResponse
  unfolding check not_found_response
  after_lookup req (ok k) = check k req
  after_lookup req (err e) =
      if errors_is e Sentinel.not_found
      then pure not_found_response
      else fail (status internal (labelled "lookup key" e))

  unfoldable pub verify_key : VerifyKeyRequest → Action (World S R) Status VerifyKeyResponse
  unfolding after_lookup validate hash
  verify_key req w = elim (validate req.plaintext "") [
    | some _ ↦ (ok not_found_response, w)
    | none ↦
        let (r, w') = call_store (srv.store.get_key_by_hash (hash sum256 req.plaintext)) w in
        after_lookup req r w'
  ]
