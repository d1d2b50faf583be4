-- ===== src/Memory/Writes.antt =====
-- What the writing operations return, and what they do to the view.
use mathlib.Core.Path.{fun_ext}
use keychain.Base.{
  String, Bytes, Bytes-Comparable, String-Comparable, ◌≡◌, ◌≢◌, sym, ◌∙◌, ap, true, false, none,
  some, Option, arith, ok, err, Option-cases, inl, inr, eq_iff,
}
use keychain.Base.Map.{get, update, get-put-update}
use keychain.Base.Int.{negsuc, is_neg, is_pos, is_zero, pred, is_pos-signs, is_zero-nonneg}
use keychain.Store.{
  Time, sentinel, wrapped, not_found, conflict, depleted, Workspace, Api, Key, Stamp, new_id,
}
use keychain.Store.Contract.{
  with_workspace, with_api, with_key, HashFree, stamped_workspace, stamped_api, stamped_key,
  Returns,
}
use keychain.Memory.{
  Memory, create_workspace, create_api, create_key, revoke_key, rotate_key, rehash, set_key,
  touch_last_verified, decrement_remaining_uses,
}
use keychain.Memory.Driver.{view}
use keychain.Memory.Index.{free_of_others, taken_of_other}
use keychain.Memory.Clone.{clone_workspace_lem, clone_api_lem, clone_key_lem}
use keychain.Memory.Invariant.{
  IsValid, create_workspace-IsValid, create_api-IsValid, create_key-IsValid, revoke_key-IsValid,
  rotate_key-IsValid, touch_last_verified-IsValid, decrement-IsValid,
}

update_same :
    {V : Type 0} (id : String) (v : V) (f : String → Option V) → f id ≡ some v → f ≡ update id v f
update_same id v f e = fun_ext λ j. ground (arith, eq_iff id j)

module _ (m : Memory) (v : IsValid m) where
  view-put_key : (id : String) (k : Key) → view (set_key k id m) ≡ with_key id k (view m)
  unfolding set_key
  view-put_key id k = λ i. record (view m) { keys = get-put-update id k m.keys i }

  pub create_workspace-Returns :
      (t : Stamp) (w : Workspace)
      → Returns IsValid view
          (create_workspace t w m)
          (stamped_workspace t w)
          (with_workspace (stamped_workspace t w) (view m))
  unfolding create_workspace
  create_workspace-Returns t w = record {
    result = simp clone_workspace_lem;
    valid = create_workspace-IsValid m v t w;
    after = simp clone_workspace_lem (λ i. record (view m) {
      workspaces = get-put-update (new_id "ws" t) (stamped_workspace t w) m.workspaces i;
    });
  }

  pub create_api-Returns :
      (t : Stamp) (a : Api) (w : Workspace)
      → get a.workspace_id m.workspaces ≡ some w
      → Returns IsValid view
          (create_api t a m)
          (stamped_api t a)
          (with_api (stamped_api t a) (view m))
  unfolding create_api
  create_api-Returns t a w e = record {
    result = rw (e, create_api) (simp clone_api_lem);
    valid = create_api-IsValid m v t a;
    after =
        rw (e, create_api)
          (simp clone_api_lem (λ i. record (view m) {
            apis = get-put-update (new_id "api" t) (stamped_api t a) m.apis i;
          }));
  }

  pub create_api_orphan :
      (t : Stamp) (a : Api)
      → get a.workspace_id m.workspaces ≡ none
      → create_api t a m ≡ (err (wrapped "workspace" a.workspace_id (sentinel not_found)), m)
  unfolding create_api
  create_api_orphan t a e = rw (e, create_api)

  -- A hash that no key has is not in the index, and the other way round.
  unindexed :
      (h : Bytes)
      → ((j : String) (l : Key) → get j m.keys ≡ some l → l.key_hash ≢ h)
      → get h m.hash_index ≡ none
  unindexed h absent = elim (Option-cases (get h m.hash_index)) [
    | inl e ↦ e
    | inr (id, e) ↦
        let (k, stored, same) = v.indexed.backward h id e in absurd (absent id k stored same)
  ]

  pub create_key-Returns :
      (t : Stamp) (k : Key) (a : Api)
      → get k.api_id m.apis ≡ some a
      → get (new_id "key" t) m.keys ≡ none
      → ((j : String) (l : Key) → get j m.keys ≡ some l → l.key_hash ≢ k.key_hash)
      → Returns IsValid view
          (create_key t k m)
          (stamped_key t k)
          (with_key (new_id "key" t) (stamped_key t k) (view m))
  unfolding create_key
  create_key-Returns t k a parent fresh absent = record {
    result = rw (parent, unindexed k.key_hash absent, create_key) (simp clone_key_lem);
    valid = create_key-IsValid m v t k fresh;
    after =
        rw (parent, unindexed k.key_hash absent, create_key)
          (simp clone_key_lem (λ i. record (view m) {
            keys = get-put-update (new_id "key" t) (stamped_key t k) m.keys i;
          }));
  }

  pub create_key_orphan :
      (t : Stamp) (k : Key)
      → get k.api_id m.apis ≡ none
      → create_key t k m ≡ (err (wrapped "api" k.api_id (sentinel not_found)), m)
  unfolding create_key
  create_key_orphan t k e = rw (e, create_key)

  pub create_key_conflict :
      (t : Stamp) (k : Key) (a : Api) (j : String) (l : Key)
      → get k.api_id m.apis ≡ some a
      → get j m.keys ≡ some l
      → l.key_hash ≡ k.key_hash
      → create_key t k m ≡ (err (sentinel conflict), m)
  unfolding create_key
  create_key_conflict t k a j l parent stored same =
      rw (
        parent,
        (ap (λ h. get h m.hash_index) (sym same) ∙ v.indexed.forward j l stored),
        create_key,
      )

  pub revoke_key-Returns :
      (t : Stamp) (id : String) (k : Key)
      → get id m.keys ≡ some k
      → k.enabled ≡ true
      → Returns IsValid view
          (revoke_key t id m)
          tt
          (with_key id (record k { enabled = false; updated_at = t.now }) (view m))
  unfolding revoke_key
  revoke_key-Returns t id k e on = record {
    result = rw (e, on, revoke_key);
    valid = revoke_key-IsValid m v t id;
    after = rw (e, on, revoke_key) (view-put_key id _);
  }

  pub revoke_key_again :
      (t : Stamp) (id : String) (k : Key)
      → get id m.keys ≡ some k
      → k.enabled ≡ false
      → Returns IsValid view (revoke_key t id m) tt (with_key id k (view m))
  unfolding revoke_key
  revoke_key_again t id k e off = record {
    result = rw (e, off, revoke_key);
    valid = revoke_key-IsValid m v t id;
    after =
        rw (e, off, revoke_key)
          (λ i. record (view m) {
            keys =
                update_same id (record k { enabled = false }) (view m).keys
                  (e ∙ ap some (λ j. record k { enabled = off j })) i;
          });
  }

  pub revoke_key_missing :
      (t : Stamp) (id : String)
      → get id m.keys ≡ none
      → revoke_key t id m ≡ (err (sentinel not_found), m)
  unfolding revoke_key
  revoke_key_missing t id e = rw (e, revoke_key)

  pub rotate_key-Returns :
      (t : Stamp) (id : String) (h : Bytes) (k : Key)
      → get id m.keys ≡ some k
      → HashFree (view m) id h
      → let k' = record k { key_hash = h; updated_at = t.now } in
        Returns IsValid view (rotate_key t id h m) k' (with_key id k' (view m))
  unfolding rotate_key rehash
  rotate_key-Returns t id h k e free = record {
    result =
        rw (e, free_of_others m.keys m.hash_index v.indexed id h free, rotate_key)
          (simp clone_key_lem);
    valid = rotate_key-IsValid m v t id h;
    after =
        rw (e, free_of_others m.keys m.hash_index v.indexed id h free, rotate_key)
          (view-put_key id _);
  }

  pub rotate_key_conflict :
      (t : Stamp) (id : String) (h : Bytes) (k : Key) (j : String) (l : Key)
      → get id m.keys ≡ some k
      → get j m.keys ≡ some l
      → id ≢ j
      → l.key_hash ≡ h
      → rotate_key t id h m ≡ (err (sentinel conflict), m)
  unfolding rotate_key
  rotate_key_conflict t id h k j l e stored other same =
      rw (e, taken_of_other m.keys m.hash_index v.indexed id h j l stored other same, rotate_key)

  pub rotate_key_missing :
      (t : Stamp) (id : String) (h : Bytes)
      → get id m.keys ≡ none
      → rotate_key t id h m ≡ (err (sentinel not_found), m)
  unfolding rotate_key
  rotate_key_missing t id h e = rw (e, rotate_key)

  pub touch-Returns :
      (id : String) (at : Time) (k : Key)
      → get id m.keys ≡ some k
      → Returns IsValid view
          (touch_last_verified id at m)
          tt
          (with_key id (record k { last_verified_at = some at }) (view m))
  unfolding touch_last_verified
  touch-Returns id at k e = record {
    result = rw (e, touch_last_verified);
    valid = touch_last_verified-IsValid m v id at;
    after = rw (e, touch_last_verified) (view-put_key id _);
  }

  pub touch_missing :
      (id : String) (at : Time)
      → get id m.keys ≡ none
      → touch_last_verified id at m ≡ (err (sentinel not_found), m)
  unfolding touch_last_verified
  touch_missing id at e = rw (e, touch_last_verified)

  pub decrement-Returns :
      (t : Stamp) (id : String) (k : Key)
      → get id m.keys ≡ some k
      → is_pos k.remaining_uses ≡ true
      → let k' = record k { remaining_uses = pred k.remaining_uses; updated_at = t.now } in
        Returns IsValid view
          (decrement_remaining_uses t id m)
          (pred k.remaining_uses)
          (with_key id k' (view m))
  unfolding decrement_remaining_uses
  decrement-Returns t id k e left =
      let (capped, unspent) = is_pos-signs k.remaining_uses left in
      record {
        result = rw (e, capped, unspent, decrement_remaining_uses);
        valid = decrement-IsValid m v t id;
        after = rw (e, capped, unspent, decrement_remaining_uses) (view-put_key id _);
      }

  pub decrement_unlimited :
      (t : Stamp) (id : String) (k : Key)
      → get id m.keys ≡ some k
      → is_neg k.remaining_uses ≡ true
      → decrement_remaining_uses t id m ≡ (ok (negsuc 0), m)
  unfolding decrement_remaining_uses
  decrement_unlimited t id k e neg = rw (e, neg, decrement_remaining_uses)

  pub decrement_depleted :
      (t : Stamp) (id : String) (k : Key)
      → get id m.keys ≡ some k
      → is_zero k.remaining_uses ≡ true
      → decrement_remaining_uses t id m ≡ (err (sentinel depleted), m)
  unfolding decrement_remaining_uses
  decrement_depleted t id k e spent =
      rw (e, is_zero-nonneg k.remaining_uses spent, spent, decrement_remaining_uses)

  pub decrement_missing :
      (t : Stamp) (id : String)
      → get id m.keys ≡ none
      → decrement_remaining_uses t id m ≡ (err (sentinel not_found), m)
  unfolding decrement_remaining_uses
  decrement_missing t id e = rw (e, decrement_remaining_uses)
