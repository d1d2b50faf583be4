-- ===== src/Server/Verdicts.antt =====
-- What a caller of `VerifyKey` may rely on, read off the decision table.
use keychain.Base.{
  ℕ, String, Bytes, ◌≡◌, ◌≢◌, ◌⊎◌, ◌↔◌, refl, sym, ap, ◌∙◌, true, some, List, [], ok, err, Outcome,
  inl, inr,
}
use keychain.Base.Lists.{All}
use keychain.Store.{Key}
use keychain.Store.Contract.{Precision, View, Contract, with_key}
use keychain.Wire.{VerifyResult, VerifyKeyRequest, VerifyKeyResponse}
use keychain.Server.{Server, World, Readings, RateLimiter, LimitDecision, Status}
use keychain.Server.Verify.{verify_key, found_response, not_found_response, with_result}
use keychain.Server.Usable.{Usable, Refusal, revoked, expired, depleted, forbidden}
use keychain.Server.Decision.{spent_key, granted}
use keychain.Server.Metering.{IsUnmetered, Presents, metered_response}
use keychain.Server.Table
use keychain.Server.Table.{
  Decision, verify-Decision, blank, absent, refused, unmetered, unwired, unreachable, denied,
  allowed,
}

-- No reason for a refusal is the valid result.
Refusal-ne-valid :
    {k : Key} {required : List String} {now : ℕ} {r : VerifyResult}
    → Refusal k required now r
    → r ≢ VerifyResult.valid
Refusal-ne-valid (revoked _) e = cc
Refusal-ne-valid (expired _ _) e = cc
Refusal-ne-valid (depleted _ _ _) e = cc
Refusal-ne-valid (forbidden _ _ _ _) e = cc

ok-injective :
    {a b : VerifyKeyResponse} → ◌≡◌ {A = Outcome Status VerifyKeyResponse} (ok a) (ok b) → a ≡ b
ok-injective e = cc

-- One outcome has one result.
same_result :
    (o : Outcome Status VerifyKeyResponse) (a b : VerifyKeyResponse)
    → o ≡ ok a
    → o ≡ ok b
    → a.result ≡ b.result
same_result o a b p q = ap (λ x. x.result) (ok-injective (sym p ∙ q))

module _ {S R : Type 0} (sum256 : String → Bytes) (srv : Server S R) (env : Readings)
    (Valid : S → Type 0) (view : S → View) {precision : Precision}
    (c : Contract Valid view precision srv.store) where
  abbrev Row : VerifyKeyRequest → World S R → Outcome Status VerifyKeyResponse × World S R → Type 0
  Row = Decision sum256 srv env Valid view c

  -- Every limit of the key was asked and allowed the call, or none had to be asked.
  abbrev pub Cleared : Key → VerifyKeyRequest → World S R → Type 0
  Cleared k req w =
      IsUnmetered k req
      ⊎ ((rl : RateLimiter R) × (ds : List LimitDecision) × (l : R) × (srv.rl ≡ some rl)
          × Table.Asked sum256 srv env Valid view c rl k req w (ok ds, l)
          × All (λ d. d.allowed ≡ true) ds)

  -- What a valid response means; the rate limit decisions in it are left open.
  pub record Sound (req : VerifyKeyRequest) (w w' : World S R) (resp : VerifyKeyResponse)
      : Type 0 where
    pub key : Key
    pub identity : record resp { limit_decisions = [] } ≡ granted (found_response key)
    pub shown : Presents sum256 srv env Valid view c key req w
    pub fit : Usable key req.required_permissions env.checked_at
    pub cleared : Cleared key req w
    pub spent : view w'.stored ≡ with_key key.key_id (spent_key precision env key) (view w.stored)
    pub valid : Valid w'.stored

  Row-Sound :
      (req : VerifyKeyRequest) (w : World S R) (r : Outcome Status VerifyKeyResponse × World S R)
      (resp : VerifyKeyResponse)
      → Row req w r
      → r.0 ≡ ok resp
      → resp.result ≡ VerifyResult.valid
      → Sound req w r.1 resp
  unfolding not_found_response found_response
  Row-Sound req w r resp (blank g e) h v =
      cc (same_result r.0 not_found_response resp (ap (λ x. x.0) e) h ∙ v)
  Row-Sound req w r resp (absent n e) h v =
      cc (same_result r.0 not_found_response resp (ap (λ x. x.0) e) h ∙ v)
  Row-Sound req w r resp (refused k x p f e) h v = absurd (
      Refusal-ne-valid f
        (same_result r.0 (with_result (found_response k) x) resp (ap (λ x. x.0) e) h ∙ v))
  Row-Sound req w r resp (unmetered k p u n g) h v = record {
    key = k;
    identity =
        ap {A = VerifyKeyResponse} (λ x. record x { limit_decisions = [] })
          (ok-injective (sym h ∙ g.result));
    shown = p;
    fit = u;
    cleared = inl n;
    spent = g.after;
    valid = g.valid;
  }
  Row-Sound req w r resp (unwired k p u m n e) h v = cc (ap (λ x. x.0) e)
  Row-Sound req w r resp (unreachable k rl x l p u m n a e) h v = cc (ap (λ x. x.0) e)
  Row-Sound req w r resp (denied k rl ds l d p u m n a i f e) h v = cc (
      same_result r.0 (with_result (metered_response k ds) VerifyResult.rate_limited) resp
        (ap (λ x. x.0) e) h
      ∙ v)
  Row-Sound req w r resp (allowed k rl ds l p u m n a all g) h v = record {
    key = k;
    identity =
        ap {A = VerifyKeyResponse} (λ x. record x { limit_decisions = [] })
          (ok-injective (sym h ∙ g.result));
    shown = p;
    fit = u;
    cleared = inr (rl, ds, l, n, a, all);
    spent = g.after;
    valid = g.valid;
  }

  -- On a valid store, a response whose result is VALID is given only for the plaintext of a stored
  -- key that is enabled, not expired, not depleted, has every required permission and passed every
  -- limit that had to be asked; the response names that key, its parents, owner and permissions;
  -- afterwards the store is valid and holds that key with one use fewer (if it was capped) and the
  -- touch time, and is otherwise unchanged.
  pub verify-Sound :
      (req : VerifyKeyRequest) (w : World S R) (resp : VerifyKeyResponse)
      → Valid w.stored
      → (verify_key sum256 srv env req w).0 ≡ ok resp
      → resp.result ≡ VerifyResult.valid
      → Sound req w (verify_key sum256 srv env req w).1 resp
  verify-Sound req w resp v =
      Row-Sound req w (verify_key sum256 srv env req w) resp
        (verify-Decision sum256 srv env Valid view c req w v)

  -- The flag and the result agree.
  abbrev pub Agrees : Outcome Status VerifyKeyResponse → Type 0
  Agrees (ok resp) = (resp.valid ≡ true) ↔ (resp.result ≡ VerifyResult.valid)
  Agrees (err e) = Unit

  Row-Agrees :
      (req : VerifyKeyRequest) (w : World S R) (r : Outcome Status VerifyKeyResponse × World S R)
      → Row req w r
      → Agrees r.0
  unfolding not_found_response found_response
  Row-Agrees req w r (blank g e) = rw e (λ x. cc, λ x. cc)
  Row-Agrees req w r (absent n e) = rw e (λ x. cc, λ x. cc)
  Row-Agrees req w r (refused k x p f e) = rw e (λ y. cc, λ y. absurd (Refusal-ne-valid f y))
  Row-Agrees req w r (unmetered k p u n g) = rw g.result (λ x. refl, λ x. refl)
  Row-Agrees req w r (unwired k p u m n e) = rw e tt
  Row-Agrees req w r (unreachable k rl x l p u m n a e) = rw e tt
  Row-Agrees req w r (denied k rl ds l d p u m n a i f e) = rw e (λ x. cc, λ x. cc)
  Row-Agrees req w r (allowed k rl ds l p u m n a all g) = rw g.result (λ x. refl, λ x. refl)

  -- On a valid store, every response of VerifyKey has the flag valid set exactly when its result is
  -- VERIFY_RESULT_VALID.
  pub verify-Agrees :
      (req : VerifyKeyRequest) (w : World S R)
      → Valid w.stored
      → Agrees (verify_key sum256 srv env req w).0
  verify-Agrees req w v =
      Row-Agrees req w (verify_key sum256 srv env req w)
        (verify-Decision sum256 srv env Valid view c req w v)

  -- A valid response.
  abbrev pub IsGranted : Outcome Status VerifyKeyResponse → Type 0
  IsGranted (ok resp) = resp.result ≡ VerifyResult.valid
  IsGranted (err e) = ⊥

  Row-stored :
      (req : VerifyKeyRequest) (w : World S R) (r : Outcome Status VerifyKeyResponse × World S R)
      → Row req w r
      → ¬ IsGranted r.0
      → r.1.stored ≡ w.stored
  Row-stored req w r (blank g e) n = ap (λ x. x.1.stored) e
  Row-stored req w r (absent x e) n = ap (λ x. x.1.stored) e
  Row-stored req w r (refused k x p f e) n = ap (λ x. x.1.stored) e
  Row-stored req w r (unmetered k p u x g) n = absurd (n (rw g.result refl))
  Row-stored req w r (unwired k p u m x e) n = ap (λ x. x.1.stored) e
  Row-stored req w r (unreachable k rl x l p u m y a e) n = ap (λ x. x.1.stored) e
  Row-stored req w r (denied k rl ds l d p u m y a i f e) n = ap (λ x. x.1.stored) e
  Row-stored req w r (allowed k rl ds l p u m y a all g) n = absurd (n (rw g.result refl))

  -- On a valid store, a VerifyKey call that does not end in a VALID response, errors included,
  -- leaves the store exactly as it was.
  pub verify-stored :
      (req : VerifyKeyRequest) (w : World S R)
      → Valid w.stored
      → ¬ IsGranted (verify_key sum256 srv env req w).0
      → (verify_key sum256 srv env req w).1.stored ≡ w.stored
  verify-stored req w v =
      Row-stored req w (verify_key sum256 srv env req w)
        (verify-Decision sum256 srv env Valid view c req w v)
