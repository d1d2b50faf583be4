-- ===== src/Server/Credit.antt =====
-- The credit of a key over a sequence of calls of `VerifyKey`, whatever keys they present.
use keychain.Base.{
  ℕ, zero, suc, ◌+◌, String, String-Comparable, Bytes, ◌≡◌, ◌⊎◌, refl, sym, ap, subst, ◌∙◌, Bool,
  true, false, ◌&&◌, some, List, [], ◌∷◌, arith, ok, err, Outcome, ◌==◌, eq_iff, inl, inr,
  if◌then◌else◌, Bool-cases, equal_refl,
}
use keychain.Base.Int.{pos}
use keychain.Store.{Key}
use keychain.Base.Map.{update}
use keychain.Store.Contract.{Precision, View, Contract}
use keychain.Wire.{VerifyResult, VerifyKeyRequest, VerifyKeyResponse}
use keychain.Server.{Server, World, Readings, Status}
use keychain.Server.Verify.{verify_key, found_response}
use keychain.Server.Decision.{spent_key}
use keychain.Server.Verdicts.{Sound, IsGranted, verify-Sound, verify-stored}

abbrev is_valid : VerifyResult → Bool
is_valid VerifyResult.valid = true
is_valid _ = false

-- Is the outcome a valid response for the key `id`?
abbrev pub is_use : String → Outcome Status VerifyKeyResponse → Bool
is_use id (ok resp) = is_valid resp.result && (resp.key_id == id)
is_use id (err e) = false

-- The number of valid responses for the key `id`.
abbrev pub uses : String → List (Outcome Status VerifyKeyResponse) → ℕ
uses id [] = 0
uses id (o ∷ os) = if is_use id o then suc (uses id os) else uses id os

is_valid-valid : (v : VerifyResult) → is_valid v ≡ true → v ≡ VerifyResult.valid
is_valid-valid VerifyResult.valid h = refl
is_valid-valid VerifyResult.unspecified h = cc
is_valid-valid VerifyResult.not_found h = cc
is_valid-valid VerifyResult.revoked h = cc
is_valid-valid VerifyResult.expired h = cc
is_valid-valid VerifyResult.depleted h = cc
is_valid-valid VerifyResult.forbidden h = cc
is_valid-valid VerifyResult.rate_limited h = cc

zero_cases : (n : ℕ) → (n ≡ 0) ⊎ ((m : ℕ) × (n ≡ suc m))
zero_cases zero = inl refl
zero_cases (suc m) = inr (m, refl)

some_injective : {a b : Key} → some a ≡ some b → a ≡ b
some_injective e = cc

module _ {S R : Type 0} (sum256 : String → Bytes) (srv : Server S R) where
  -- The calls one after the other, with what each reads from its surroundings.
  pub verify_all :
      List (Readings × VerifyKeyRequest)
      → World S R
      → List (Outcome Status VerifyKeyResponse) × World S R
  verify_all [] w = ([], w)
  verify_all ((env, req) ∷ calls) w =
      let (o, w') = verify_key sum256 srv env req w in
      let (os, w'') = verify_all calls w' in (o ∷ os, w'')

module _ {S R : Type 0} (sum256 : String → Bytes) (srv : Server S R) (Valid : S → Type 0)
    (view : S → View) {precision : Precision} (c : Contract Valid view precision srv.store)
    (id : String) where
  -- The state after a call or several: the key `id` has what is left of `n` uses after `spent`.
  pub record Left (n spent : ℕ) (w : World S R) : Type 0 where
    pub key : Key
    pub left : ℕ
    pub valid : Valid w.stored
    pub stored : (view w.stored).keys id ≡ some key
    pub credit : key.remaining_uses ≡ pos left
    pub total : spent + left ≡ n

  abbrev spent_by : Outcome Status VerifyKeyResponse → ℕ
  spent_by o = if is_use id o then 1 else 0

  module _ (env : Readings) (req : VerifyKeyRequest) (w : World S R) (n : ℕ)
      (start : Left n 0 w) where
    abbrev after : Outcome Status VerifyKeyResponse × World S R
    after = verify_key sum256 srv env req w

    unspent : ¬ IsGranted sum256 srv env Valid view c after.0 → Left n (spent_by after.0) after.1
    unspent refused =
        let same = verify-stored sum256 srv env Valid view c req w start.valid refused in
        record {
          key = start.key;
          left = start.left;
          valid = subst Valid (sym same) start.valid;
          stored = ap (λ s. (view s).keys id) same ∙ start.stored;
          credit = start.credit;
          total = rw (unused after.0 refused) start.total;
        }
      where
        unused :
            (o : Outcome Status VerifyKeyResponse)
            → ¬ IsGranted sum256 srv env Valid view c o
            → is_use id o ≡ false
        unused (err e) h = refl
        unused (ok resp) h = elim (Bool-cases (is_valid resp.result)) [
          | inl t ↦ absurd (h (is_valid-valid resp.result t))
          | inr f ↦ rw f refl
        ]

    module _ (resp : VerifyKeyResponse) (s : Sound sum256 srv env Valid view c req w after.1 resp)
        (answer : after.0 ≡ ok resp) (v : resp.result ≡ VerifyResult.valid) where
      names_key : resp.key_id ≡ s.key.key_id
      unfolding found_response
      names_key = ap (λ x. x.key_id) s.identity

      stored_after :
          (view after.1.stored).keys id
          ≡ update s.key.key_id (spent_key precision env s.key) (view w.stored).keys id
      stored_after = ap (λ x. x.keys id) s.spent

      spent_here : s.key.key_id ≡ id → Left n (spent_by after.0) after.1
      spent_here hit =
          let held : (view w.stored).keys id ≡ some s.key =
            subst (λ j. (view w.stored).keys j ≡ some s.key) hit s.shown.stored in
          let credit : s.key.remaining_uses ≡ pos start.left =
            ap (λ k. k.remaining_uses) (some_injective (sym held ∙ start.stored)) ∙ start.credit in
          elim (zero_cases start.left) [
            | inl none_left ↦ absurd (s.fit.credit (credit ∙ ap pos none_left))
            | inr (m, more) ↦ record {
              key = spent_key precision env s.key;
              left = m;
              valid = s.valid;
              stored = stored_after ∙ rw (hit, equal_refl id) refl;
              credit = rw (credit, more) refl;
              total =
                  rw (answer, v, names_key, hit, equal_refl id) (omega (arith, start.total, more));
            }
          ]

      spent_elsewhere : (s.key.key_id == id) ≡ false → Left n (spent_by after.0) after.1
      spent_elsewhere miss = record {
        key = start.key;
        left = start.left;
        valid = s.valid;
        stored = stored_after ∙ rw miss start.stored;
        credit = start.credit;
        total = rw (answer, v, names_key, miss) start.total;
      }

    one_call : Left n (spent_by after.0) after.1
    one_call = answered after.0 refl
      where
        answered :
            (o : Outcome Status VerifyKeyResponse) → after.0 ≡ o → Left n (spent_by after.0) after.1
        answered (err e) h = unspent (λ g. rw h at g)
        answered (ok resp) h = elim (Bool-cases (is_valid resp.result)) [
          | inr f ↦ unspent (λ g. cc (sym f ∙ ap is_valid (rw h at g)))
          | inl t ↦
              let v = is_valid-valid resp.result t in
              let s = verify-Sound sum256 srv env Valid view c req w resp start.valid h v in
              elim (Bool-cases (s.key.key_id == id)) [
                | inl hit ↦ spent_here resp s h v ((eq_iff s.key.key_id id).0 hit)
                | inr miss ↦ spent_elsewhere resp s h v miss
              ]
        ]

  uses_total :
      (o : Outcome Status VerifyKeyResponse) (os : List (Outcome Status VerifyKeyResponse))
      → uses id (o ∷ os) ≡ spent_by o + uses id os
  uses_total o os = ground arith

  run-Left :
      (calls : List (Readings × VerifyKeyRequest)) (w : World S R) (n : ℕ)
      → Left n 0 w
      → Left n (uses id (verify_all sum256 srv calls w).0) (verify_all sum256 srv calls w).1
  unfolding verify_all
  run-Left [] w n start = start
  run-Left ((env, req) ∷ calls) w n start =
      let (o, w') = verify_key sum256 srv env req w in
      let first = one_call env req w n start in
      let rest = run-Left calls w' first.left (record {
        key = first.key;
        left = first.left;
        valid = first.valid;
        stored = first.stored;
        credit = first.credit;
        total = omega arith;
      }) in
      record {
        key = rest.key;
        left = rest.left;
        valid = rest.valid;
        stored = rest.stored;
        credit = rest.credit;
        total =
            omega (arith, first.total, rest.total, uses_total o (verify_all sum256 srv calls w').0);
      }

  -- In any sequence of VerifyKey calls from a valid store, whatever they present and whatever the
  -- rate limiter answers, the number of VALID responses for a key that starts with n uses and the
  -- uses that it has left in the end add up to n.
  pub verify_all-Left :
      (calls : List (Readings × VerifyKeyRequest)) (w : World S R) (k : Key) (n : ℕ)
      → Valid w.stored
      → (view w.stored).keys id ≡ some k
      → k.remaining_uses ≡ pos n
      → Left n (uses id (verify_all sum256 srv calls w).0) (verify_all sum256 srv calls w).1
  verify_all-Left calls w k n v stored credit = run-Left calls w n (record {
    key = k;
    left = n;
    valid = v;
    stored = stored;
    credit = credit;
    total = omega arith;
  })
