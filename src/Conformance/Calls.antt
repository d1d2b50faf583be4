-- ===== src/Conformance/Calls.antt =====
-- What each call of a store that keeps the contract of store.go does to its view.
use keychain.Base.{◌≡◌, subst, refl, sym, ap, ◌∙◌, String, true, false, none, some, Bytes, Action}
use keychain.Base.Int.{negsuc, is_neg, is_pos, pred}
use keychain.Store.{Time, Workspace, Api, Key, Stamp, Store, new_id}
use keychain.Conformance.Law.{Law}
use keychain.Store.Contract.{
  View, Precision, HashUnused, HashFree, with_workspace, with_api, with_key, kept_workspace,
  kept_api, kept_key, stamped_workspace, stamped_api, stamped_key,
}
use keychain.Store.Revoking.{revoke_key-Returns}
use keychain.Conformance.Steps.{Leads, Passes}
use keychain.Conformance.{◌>>◌, Failure, must}

module _ {S : Type 0} {Valid : S → Type 0} {view : S → View} {p : Precision} {st : Store S}
    (law : Law Valid view p st) {v : View} where
  pub lead_get_workspace :
      (id : String) (w : Workspace)
      → v.workspaces id ≡ some w
      → Leads Valid view v (st.get_workspace id) w v
  lead_get_workspace id w held = record {
    run = λ s valid e.
        rw
          (
            law.contract.get_workspace s valid id (law.holds.text id),
            subst (λ u. u.workspaces id ≡ some w) (sym e) held,
          )
          (record { result = refl; valid = valid; after = e });
  }

  pub lead_get_api :
      (id : String) (a : Api) → v.apis id ≡ some a → Leads Valid view v (st.get_api id) a v
  lead_get_api id a held = record {
    run = λ s valid e.
        rw
          (
            law.contract.get_api s valid id (law.holds.text id),
            subst (λ u. u.apis id ≡ some a) (sym e) held,
          )
          (record { result = refl; valid = valid; after = e });
  }

  pub lead_get_key :
      (id : String) (k : Key) → v.keys id ≡ some k → Leads Valid view v (st.get_key_by_id id) k v
  lead_get_key id k held = record {
    run = λ s valid e.
        rw
          (
            law.contract.get_key_by_id s valid id (law.holds.text id),
            subst (λ u. u.keys id ≡ some k) (sym e) held,
          )
          (record { result = refl; valid = valid; after = e });
  }

  pub lead_get_hash :
      (id : String) (k : Key)
      → v.keys id ≡ some k
      → Leads Valid view v (st.get_key_by_hash k.key_hash) k v
  lead_get_hash id k held = record {
    run = λ s valid e.
        rw
          (law.contract.get_key_by_hash_hit s valid id k
            (subst (λ u. u.keys id ≡ some k) (sym e) held))
          (record { result = refl; valid = valid; after = e });
  }

  pub lead_create_workspace :
      (t : Stamp) (w : Workspace)
      → v.workspaces (new_id "ws" t) ≡ none
      → Leads Valid view v
          (st.create_workspace t w)
          (stamped_workspace t w)
          (with_workspace (kept_workspace p (stamped_workspace t w)) v)
  lead_create_workspace t w fresh = record {
    run = λ s valid e.
        let r =
          law.contract.create_workspace s valid t w
            (subst (λ u. u.workspaces (new_id "ws" t) ≡ none) (sym e) fresh)
            (law.holds.workspace (stamped_workspace t w)) in
        record {
          result = r.result;
          valid = r.valid;
          after = r.after ∙ ap (with_workspace (kept_workspace p (stamped_workspace t w))) e;
        };
  }

  pub lead_create_api :
      (t : Stamp) (a : Api) (w : Workspace)
      → v.workspaces a.workspace_id ≡ some w
      → v.apis (new_id "api" t) ≡ none
      → Leads Valid view v
          (st.create_api t a)
          (stamped_api t a)
          (with_api (kept_api p (stamped_api t a)) v)
  lead_create_api t a w parent fresh = record {
    run = λ s valid e.
        let r =
          law.contract.create_api s valid t a w
            (subst (λ u. u.workspaces a.workspace_id ≡ some w) (sym e) parent)
            (subst (λ u. u.apis (new_id "api" t) ≡ none) (sym e) fresh)
            (law.holds.api (stamped_api t a)) in
        record {
          result = r.result;
          valid = r.valid;
          after = r.after ∙ ap (with_api (kept_api p (stamped_api t a))) e;
        };
  }

  pub lead_create_key :
      (t : Stamp) (k : Key) (a : Api) (w : Workspace)
      → v.apis k.api_id ≡ some a
      → v.workspaces k.workspace_id ≡ some w
      → v.keys (new_id "key" t) ≡ none
      → HashUnused v k.key_hash
      → Leads Valid view v
          (st.create_key t k)
          (stamped_key t k)
          (with_key (new_id "key" t) (kept_key p (stamped_key t k)) v)
  lead_create_key t k a w parent owner fresh unused = record {
    run = λ s valid e.
        let r =
          law.contract.create_key s valid t k a w
            (subst (λ u. u.apis k.api_id ≡ some a) (sym e) parent)
            (subst (λ u. u.workspaces k.workspace_id ≡ some w) (sym e) owner)
            (subst (λ u. u.keys (new_id "key" t) ≡ none) (sym e) fresh)
            (subst (λ u. HashUnused u k.key_hash) (sym e) unused)
            (law.holds.key (stamped_key t k)) in
        record {
          result = r.result;
          valid = r.valid;
          after = r.after ∙ ap (with_key (new_id "key" t) (kept_key p (stamped_key t k))) e;
        };
  }

  pub lead_rotate_key :
      (t : Stamp) (id : String) (h : Bytes) (k : Key)
      → v.keys id ≡ some k
      → HashFree v id h
      → Leads Valid view v
          (st.rotate_key t id h)
          (record k { key_hash = h; updated_at = p.time t.now })
          (with_key id (record k { key_hash = h; updated_at = p.time t.now }) v)
  lead_rotate_key t id h k held free = record {
    run = λ s valid e.
        let r =
          law.contract.rotate_key s valid t id h k (subst (λ u. u.keys id ≡ some k) (sym e) held)
            (subst (λ u. HashFree u id h) (sym e) free) in
        record {
          result = r.result;
          valid = r.valid;
          after =
              r.after ∙ ap (with_key id (record k { key_hash = h; updated_at = p.time t.now })) e;
        };
  }

  pub lead_touch :
      (id : String) (at : Time) (k : Key)
      → v.keys id ≡ some k
      → Leads Valid view v
          (st.touch_last_verified id at)
          tt
          (with_key id (record k { last_verified_at = some (p.time at) }) v)
  lead_touch id at k held = record {
    run = λ s valid e.
        let r = law.contract.touch s valid id at k (subst (λ u. u.keys id ≡ some k) (sym e) held) in
        record {
          result = r.result;
          valid = r.valid;
          after = r.after ∙ ap (with_key id (record k { last_verified_at = some (p.time at) })) e;
        };
  }

  pub lead_decrement :
      (t : Stamp) (id : String) (k : Key)
      → v.keys id ≡ some k
      → is_pos k.remaining_uses ≡ true
      → let k' = record k { remaining_uses = pred k.remaining_uses; updated_at = p.time t.now } in
        Leads Valid view v
          (st.decrement_remaining_uses t id)
          (pred k.remaining_uses)
          (with_key id k' v)
  lead_decrement t id k held positive = record {
    run = λ s valid e.
        let k' = record k { remaining_uses = pred k.remaining_uses; updated_at = p.time t.now } in
        let r =
          law.contract.decrement s valid t id k (subst (λ u. u.keys id ≡ some k) (sym e) held)
            positive in
        record { result = r.result; valid = r.valid; after = r.after ∙ ap (with_key id k') e };
  }

  pub lead_decrement_unlimited :
      (t : Stamp) (id : String) (k : Key)
      → v.keys id ≡ some k
      → is_neg k.remaining_uses ≡ true
      → Leads Valid view v (st.decrement_remaining_uses t id) (negsuc 0) v
  lead_decrement_unlimited t id k held negative = record {
    run = λ s valid e.
        rw
          (law.contract.decrement_unlimited s valid t id k
            (subst (λ u. u.keys id ≡ some k) (sym e) held) negative)
          (record { result = refl; valid = valid; after = e });
  }

  -- A revocation leaves the instant of the update open: a test must pass for each.
  pub pass_revoke :
      (message : Failure) (t : Stamp) (id : String) (k : Key) (f : Action S Failure (Unit {0}))
      → v.keys id ≡ some k
      → ((n : Time)
          → Passes Valid view (with_key id (record k { enabled = false; updated_at = n }) v) f)
      → Passes Valid view v (must message (st.revoke_key t id) >> f)
  unfolding must ◌>>◌
  pass_revoke message t id k f held rest = record {
    run = λ s valid e.
        let (n, r) =
          revoke_key-Returns law.contract s valid t id k
            (subst (λ u. u.keys id ≡ some k) (sym e) held) in
        rw (r.result) (
          (rest n).run (st.revoke_key t id s).1 r.valid
            (r.after ∙ ap (with_key id (record k { enabled = false; updated_at = n })) e));
  }

  pub pass_last_revoke :
      (message : Failure) (t : Stamp) (id : String) (k : Key)
      → v.keys id ≡ some k
      → Passes Valid view v (must message (st.revoke_key t id))
  unfolding must
  pass_last_revoke message t id k held = record {
    run = λ s valid e.
        let (n, r) =
          revoke_key-Returns law.contract s valid t id k
            (subst (λ u. u.keys id ≡ some k) (sym e) held) in
        rw (r.result) refl;
  }
