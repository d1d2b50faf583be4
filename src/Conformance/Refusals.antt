-- ===== src/Conformance/Refusals.antt =====
-- Which calls a store that keeps the contract of store.go refuses, and with which error.
use keychain.Base.{◌≡◌, ◌≢◌, refl, subst, sym, String, none, some, Bytes}
use keychain.Store.{
  Time, sentinel, wrapped, not_found, conflict, Workspace, Api, Key, Stamp, Store, new_id,
}
use keychain.Conformance.Law.{Law}
use keychain.Store.Contract.{stamped_api, stamped_key, View, Precision, HashUnused}
use keychain.Conformance.Steps.{Fails}

module _ {S : Type 0} {Valid : S → Type 0} {view : S → View} {p : Precision} {st : Store S}
    (law : Law Valid view p st) {v : View} where
  pub fail_get_workspace :
      (id : String)
      → v.workspaces id ≡ none
      → Fails Valid view v (st.get_workspace id) (sentinel not_found)
  fail_get_workspace id missing = record {
    run = λ s valid e.
        rw
          (
            law.contract.get_workspace s valid id (law.holds.text id),
            subst (λ u. u.workspaces id ≡ none) (sym e) missing,
          )
          refl;
  }

  pub fail_get_api :
      (id : String) → v.apis id ≡ none → Fails Valid view v (st.get_api id) (sentinel not_found)
  fail_get_api id missing = record {
    run = λ s valid e.
        rw
          (
            law.contract.get_api s valid id (law.holds.text id),
            subst (λ u. u.apis id ≡ none) (sym e) missing,
          )
          refl;
  }

  pub fail_get_key :
      (id : String)
      → v.keys id ≡ none
      → Fails Valid view v (st.get_key_by_id id) (sentinel not_found)
  fail_get_key id missing = record {
    run = λ s valid e.
        rw
          (
            law.contract.get_key_by_id s valid id (law.holds.text id),
            subst (λ u. u.keys id ≡ none) (sym e) missing,
          )
          refl;
  }

  pub fail_get_hash :
      (h : Bytes) → HashUnused v h → Fails Valid view v (st.get_key_by_hash h) (sentinel not_found)
  fail_get_hash h unused = record {
    run = λ s valid e.
        law.contract.get_key_by_hash_miss s valid h (subst (λ u. HashUnused u h) (sym e) unused);
  }

  pub fail_create_api :
      (t : Stamp) (a : Api)
      → v.workspaces a.workspace_id ≡ none
      → v.apis (new_id "api" t) ≡ none
      → Fails Valid view v
          (st.create_api t a)
          (wrapped "workspace" a.workspace_id (sentinel not_found))
  fail_create_api t a orphan fresh = record {
    run = λ s valid e.
        law.contract.create_api_orphan s valid t a
          (subst (λ u. u.workspaces a.workspace_id ≡ none) (sym e) orphan)
          (subst (λ u. u.apis (new_id "api" t) ≡ none) (sym e) fresh)
          (law.holds.api (stamped_api t a));
  }

  pub fail_create_key_orphan :
      (t : Stamp) (k : Key)
      → v.apis k.api_id ≡ none
      → v.keys (new_id "key" t) ≡ none
      → HashUnused v k.key_hash
      → Fails Valid view v (st.create_key t k) (wrapped "api" k.api_id (sentinel not_found))
  fail_create_key_orphan t k orphan fresh unused = record {
    run = λ s valid e.
        law.contract.create_key_orphan s valid t k
          (subst (λ u. u.apis k.api_id ≡ none) (sym e) orphan)
          (subst (λ u. u.keys (new_id "key" t) ≡ none) (sym e) fresh)
          (subst (λ u. HashUnused u k.key_hash) (sym e) unused) (law.holds.key (stamped_key t k));
  }

  pub fail_create_key_conflict :
      (t : Stamp) (k : Key) (a : Api) (w : Workspace) (j : String) (l : Key)
      → v.apis k.api_id ≡ some a
      → v.workspaces k.workspace_id ≡ some w
      → v.keys (new_id "key" t) ≡ none
      → v.keys j ≡ some l
      → l.key_hash ≡ k.key_hash
      → Fails Valid view v (st.create_key t k) (sentinel conflict)
  fail_create_key_conflict t k a w j l parent owner fresh held same = record {
    run = λ s valid e.
        law.contract.create_key_conflict s valid t k a w j l
          (subst (λ u. u.apis k.api_id ≡ some a) (sym e) parent)
          (subst (λ u. u.workspaces k.workspace_id ≡ some w) (sym e) owner)
          (subst (λ u. u.keys (new_id "key" t) ≡ none) (sym e) fresh)
          (subst (λ u. u.keys j ≡ some l) (sym e) held) same (law.holds.key (stamped_key t k));
  }

  pub fail_revoke_key :
      (t : Stamp) (id : String)
      → v.keys id ≡ none
      → Fails Valid view v (st.revoke_key t id) (sentinel not_found)
  fail_revoke_key t id missing = record {
    run = λ s valid e.
        law.contract.revoke_key_missing s valid t id (subst (λ u. u.keys id ≡ none) (sym e) missing)
          (law.holds.text id);
  }

  pub fail_rotate_key :
      (t : Stamp) (id : String) (h : Bytes)
      → v.keys id ≡ none
      → Fails Valid view v (st.rotate_key t id h) (sentinel not_found)
  fail_rotate_key t id h missing = record {
    run = λ s valid e.
        law.contract.rotate_key_missing s valid t id h
          (subst (λ u. u.keys id ≡ none) (sym e) missing) (law.holds.text id);
  }

  pub fail_rotate_key_conflict :
      (t : Stamp) (id : String) (h : Bytes) (k : Key) (j : String) (l : Key)
      → v.keys id ≡ some k
      → v.keys j ≡ some l
      → id ≢ j
      → l.key_hash ≡ h
      → Fails Valid view v (st.rotate_key t id h) (sentinel conflict)
  fail_rotate_key_conflict t id h k j l held other ne same = record {
    run = λ s valid e.
        law.contract.rotate_key_conflict s valid t id h k j l
          (subst (λ u. u.keys id ≡ some k) (sym e) held)
          (subst (λ u. u.keys j ≡ some l) (sym e) other) ne same;
  }

  pub fail_touch :
      (id : String) (at : Time)
      → v.keys id ≡ none
      → Fails Valid view v (st.touch_last_verified id at) (sentinel not_found)
  fail_touch id at missing = record {
    run = λ s valid e.
        law.contract.touch_missing s valid id at (subst (λ u. u.keys id ≡ none) (sym e) missing)
          (law.holds.text id);
  }

  pub fail_decrement :
      (t : Stamp) (id : String)
      → v.keys id ≡ none
      → Fails Valid view v (st.decrement_remaining_uses t id) (sentinel not_found)
  fail_decrement t id missing = record {
    run = λ s valid e.
        law.contract.decrement_missing s valid t id (subst (λ u. u.keys id ≡ none) (sym e) missing)
          (law.holds.text id);
  }
