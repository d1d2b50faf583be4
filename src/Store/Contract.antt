-- ===== src/Store/Contract.antt =====
-- What store.go promises of a driver, over an abstract view of the driver's state: three finite maps
-- by id. The index by hash and the representation are not part of the view. The promise that revoking
-- a revoked key is a no-op is kept with a precision whose `updated_again` is the instant before.
use keychain.Base.{
  String, Bytes, ◌≡◌, ◌≢◌, ◌⊎◌, true, false, none, some, Outcome, ok, err, String-Comparable,
}
use keychain.Base.Int.{negsuc, is_neg, is_pos, is_zero, pred}
use keychain.Store.{
  Time, sentinel, wrapped, not_found, conflict, depleted, Workspace, Api, Key, Stamp, Store, new_id,
}
pub use keychain.Store.View.{
  View, with_workspace, with_api, with_key, found, HashFree, HashUnused, stamped_workspace,
  stamped_api, stamped_key, Precision, kept_time, kept_workspace, kept_api, kept_key,
}

module _ {S : Type 0} (Valid : S → Type 0) (view : S → View) where
  -- The call returned `a`, and left a valid state with the view `v`.
  pub record Returns {E A : Type 0} (r : Outcome E A × S) (a : A) (v : View) : Type 0 where
    pub result : r.0 ≡ ok a
    pub valid : Valid r.1
    pub after : view r.1 ≡ v

  pub record Contract (p : Precision) (st : Store S) : Type 0 where
    pub get_workspace :
        (s : S)
        → Valid s
        → (id : String) → p.holds_text id ≡ true
        → st.get_workspace id s ≡ (found ((view s).workspaces id), s)
    pub get_api :
        (s : S)
        → Valid s
        → (id : String) → p.holds_text id ≡ true
        → st.get_api id s ≡ (found ((view s).apis id), s)
    pub get_key_by_id :
        (s : S)
        → Valid s
        → (id : String) → p.holds_text id ≡ true
        → st.get_key_by_id id s ≡ (found ((view s).keys id), s)
    pub workspace_text :
        (s : S)
        → Valid s
        → (id : String) (w : Workspace) → (view s).workspaces id ≡ some w
        → p.holds_text id ≡ true
    pub api_text :
        (s : S)
        → Valid s
        → (id : String) (a : Api) → (view s).apis id ≡ some a
        → p.holds_text id ≡ true
    pub key_text :
        (s : S)
        → Valid s
        → (id : String) (k : Key) → (view s).keys id ≡ some k
        → p.holds_text id ≡ true
    pub get_key_by_hash_hit :
        (s : S)
        → Valid s
        → (id : String) (k : Key) → (view s).keys id ≡ some k
        → st.get_key_by_hash k.key_hash s ≡ (ok k, s)
    pub get_key_by_hash_miss :
        (s : S)
        → Valid s
        → (h : Bytes) → HashUnused (view s) h
        → st.get_key_by_hash h s ≡ (err (sentinel not_found), s)
    pub hash_cases :
        (s : S)
        → Valid s
        → (h : Bytes)
        → ((id : String) × (k : Key) × ((view s).keys id ≡ some k) × (k.key_hash ≡ h))
          ⊎ HashUnused (view s) h
    pub hash_unique :
        (s : S)
        → Valid s
        → (i j : String) (k l : Key) → (view s).keys i ≡ some k
        → (view s).keys j ≡ some l
        → k.key_hash ≡ l.key_hash
        → i ≡ j
    pub api_label :
        (s : S) → Valid s → (id : String) (a : Api) → (view s).apis id ≡ some a → a.api_id ≡ id
    pub api_parent :
        (s : S)
        → Valid s
        → (id : String) (a : Api) → (view s).apis id ≡ some a
        → (w : Workspace) × ((view s).workspaces a.workspace_id ≡ some w)
    pub key_label :
        (s : S) → Valid s → (id : String) (k : Key) → (view s).keys id ≡ some k → k.key_id ≡ id
    pub create_workspace :
        (s : S)
        → Valid s
        → (t : Stamp) (w : Workspace) → (view s).workspaces (new_id "ws" t) ≡ none
        → p.holds_workspace (stamped_workspace t w) ≡ true
        → Returns
            (st.create_workspace t w s)
            (stamped_workspace t w)
            (with_workspace (kept_workspace p (stamped_workspace t w)) (view s))
    pub create_api :
        (s : S)
        → Valid s
        → (t : Stamp) (a : Api) (w : Workspace) → (view s).workspaces a.workspace_id ≡ some w
        → (view s).apis (new_id "api" t) ≡ none
        → p.holds_api (stamped_api t a) ≡ true
        → Returns
            (st.create_api t a s)
            (stamped_api t a)
            (with_api (kept_api p (stamped_api t a)) (view s))
    pub create_api_orphan :
        (s : S)
        → Valid s
        → (t : Stamp) (a : Api) → (view s).workspaces a.workspace_id ≡ none
        → (view s).apis (new_id "api" t) ≡ none
        → p.holds_api (stamped_api t a) ≡ true
        → st.create_api t a s ≡ (err (wrapped "workspace" a.workspace_id (sentinel not_found)), s)
    pub create_key :
        (s : S)
        → Valid s
        → (t : Stamp) (k : Key) (a : Api) (w : Workspace) → (view s).apis k.api_id ≡ some a
        → (view s).workspaces k.workspace_id ≡ some w
        → (view s).keys (new_id "key" t) ≡ none
        → HashUnused (view s) k.key_hash
        → p.holds_key (stamped_key t k) ≡ true
        → Returns
            (st.create_key t k s)
            (stamped_key t k)
            (with_key (new_id "key" t) (kept_key p (stamped_key t k)) (view s))
    pub create_key_orphan :
        (s : S)
        → Valid s
        → (t : Stamp) (k : Key) → (view s).apis k.api_id ≡ none
        → (view s).keys (new_id "key" t) ≡ none
        → HashUnused (view s) k.key_hash
        → p.holds_key (stamped_key t k) ≡ true
        → st.create_key t k s ≡ (err (wrapped "api" k.api_id (sentinel not_found)), s)
    -- Either error, when the parent is missing and the hash is in use.
    pub create_key_both :
        (s : S)
        → Valid s
        → (t : Stamp) (k : Key) (j : String) (l : Key) → (view s).apis k.api_id ≡ none
        → (view s).keys (new_id "key" t) ≡ none
        → (view s).keys j ≡ some l
        → l.key_hash ≡ k.key_hash
        → p.holds_key (stamped_key t k) ≡ true
        → (st.create_key t k s ≡ (err (wrapped "api" k.api_id (sentinel not_found)), s))
          ⊎ (st.create_key t k s ≡ (err (sentinel conflict), s))
    pub create_key_conflict :
        (s : S)
        → Valid s
        → (t : Stamp) (k : Key) (a : Api) (w : Workspace) (j : String) (l : Key)
        → (view s).apis k.api_id ≡ some a
        → (view s).workspaces k.workspace_id ≡ some w
        → (view s).keys (new_id "key" t) ≡ none
        → (view s).keys j ≡ some l
        → l.key_hash ≡ k.key_hash
        → p.holds_key (stamped_key t k) ≡ true
        → st.create_key t k s ≡ (err (sentinel conflict), s)
    pub revoke_key :
        (s : S)
        → Valid s
        → (t : Stamp) (id : String) (k : Key) → (view s).keys id ≡ some k
        → k.enabled ≡ true
        → Returns
            (st.revoke_key t id s)
            tt
            (with_key id (record k { enabled = false; updated_at = p.time t.now }) (view s))
    -- No flag changes; where `updated_again` is the instant before, the view is as it was.
    pub revoke_key_again :
        (s : S)
        → Valid s
        → (t : Stamp) (id : String) (k : Key) → (view s).keys id ≡ some k
        → k.enabled ≡ false
        → Returns
            (st.revoke_key t id s)
            tt
            (with_key id (record k { updated_at = p.updated_again t.now k.updated_at }) (view s))
    pub revoke_key_missing :
        (s : S)
        → Valid s
        → (t : Stamp) (id : String) → (view s).keys id ≡ none
        → p.holds_text id ≡ true
        → st.revoke_key t id s ≡ (err (sentinel not_found), s)
    pub rotate_key :
        (s : S)
        → Valid s
        → (t : Stamp) (id : String) (h : Bytes) (k : Key) → (view s).keys id ≡ some k
        → HashFree (view s) id h
        → let k' = record k { key_hash = h; updated_at = p.time t.now } in
          Returns (st.rotate_key t id h s) k' (with_key id k' (view s))
    pub rotate_key_conflict :
        (s : S)
        → Valid s
        → (t : Stamp) (id : String) (h : Bytes) (k : Key) (j : String) (l : Key)
        → (view s).keys id ≡ some k
        → (view s).keys j ≡ some l
        → id ≢ j
        → l.key_hash ≡ h
        → st.rotate_key t id h s ≡ (err (sentinel conflict), s)
    pub rotate_key_missing :
        (s : S)
        → Valid s
        → (t : Stamp) (id : String) (h : Bytes) → (view s).keys id ≡ none
        → p.holds_text id ≡ true
        → st.rotate_key t id h s ≡ (err (sentinel not_found), s)
    pub touch :
        (s : S)
        → Valid s
        → (id : String) (at : Time) (k : Key) → (view s).keys id ≡ some k
        → Returns
            (st.touch_last_verified id at s)
            tt
            (with_key id (record k { last_verified_at = some (p.time at) }) (view s))
    pub touch_missing :
        (s : S)
        → Valid s
        → (id : String) (at : Time) → (view s).keys id ≡ none
        → p.holds_text id ≡ true
        → st.touch_last_verified id at s ≡ (err (sentinel not_found), s)
    pub decrement :
        (s : S)
        → Valid s
        → (t : Stamp) (id : String) (k : Key) → (view s).keys id ≡ some k
        → is_pos k.remaining_uses ≡ true
        → let k' = record k { remaining_uses = pred k.remaining_uses; updated_at = p.time t.now } in
          Returns
            (st.decrement_remaining_uses t id s)
            (pred k.remaining_uses)
            (with_key id k' (view s))
    pub decrement_unlimited :
        (s : S)
        → Valid s
        → (t : Stamp) (id : String) (k : Key) → (view s).keys id ≡ some k
        → is_neg k.remaining_uses ≡ true
        → st.decrement_remaining_uses t id s ≡ (ok (negsuc 0), s)
    pub decrement_depleted :
        (s : S)
        → Valid s
        → (t : Stamp) (id : String) (k : Key) → (view s).keys id ≡ some k
        → is_zero k.remaining_uses ≡ true
        → st.decrement_remaining_uses t id s ≡ (err (sentinel depleted), s)
    pub decrement_missing :
        (s : S)
        → Valid s
        → (t : Stamp) (id : String) → (view s).keys id ≡ none
        → p.holds_text id ≡ true
        → st.decrement_remaining_uses t id s ≡ (err (sentinel not_found), s)
