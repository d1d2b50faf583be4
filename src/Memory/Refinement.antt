-- ===== src/Memory/Refinement.antt =====
-- The in-memory driver keeps the contract of store.go.
use keychain.Base.{String-Comparable}
use keychain.Store.Contract.{
  Contract, Returns, HashUnused, kept_time, kept_key, stamped_key, with_key,
}
use keychain.Base.{◌≡◌, refl, subst, sym, none, some, Option, inl}
use keychain.Store.{Time, Key, Api, Stamp, new_id}
use keychain.Memory.Driver.{driver, view, exact}
use keychain.Memory.Invariant.{IsValid}
use keychain.Memory
use keychain.Memory.{Memory}
use keychain.Base.Map.{get}
use keychain.Memory.Reads
use keychain.Memory.Writes

kept_time-exact : (t : Option Time) → kept_time exact t ≡ t
kept_time-exact none = refl
kept_time-exact (some t) = refl

kept_key-exact : (k : Key) → kept_key exact k ≡ k
kept_key-exact k = λ i. record k {
  expires_at = kept_time-exact k.expires_at i;
  last_verified_at = kept_time-exact k.last_verified_at i;
}

create_key-Returns :
    (m : Memory)
    → IsValid m
    → (t : Stamp) (k : Key) (a : Api) → get k.api_id m.apis ≡ some a
    → get (new_id "key" t) m.keys ≡ none
    → HashUnused (view m) k.key_hash
    → Returns IsValid view
        (Memory.create_key t k m)
        (stamped_key t k)
        (with_key (new_id "key" t) (kept_key exact (stamped_key t k)) (view m))
create_key-Returns m v t k a parent fresh unused =
    subst
      (λ k'.
        Returns IsValid view (Memory.create_key t k m) (stamped_key t k)
          (with_key (new_id "key" t) k' (view m)))
      (sym (kept_key-exact (stamped_key t k)))
      (Writes.create_key-Returns m v t k a parent fresh unused)

-- On every valid state the in-memory driver keeps the contract of store.go in every operation but
-- ListKeys, for all records, instants and metadata, which it keeps as they are: each call that the
-- contract covers has the promised effect on the three maps of the view and returns the promised
-- record or error, and a call that fails leaves the state as it was. In particular, RevokeKey of an
-- enabled key clears the flag and sets the update to the clock, and RevokeKey of a revoked key
-- succeeds and changes none of the three maps. The contract leaves open what a creation does under
-- an id in use, and CreateKey for an API that exists with a workspace that does not.
pub driver-Contract : Contract IsValid view exact driver
driver-Contract = record {
  get_workspace = λ m v id h. Reads.get_workspace-found m id;
  get_api = λ m v id h. Reads.get_api-found m id;
  get_key_by_id = λ m v id h. Reads.get_key_by_id-found m id;
  workspace_text = λ m v id w e. refl;
  api_text = λ m v id a e. refl;
  key_text = λ m v id k e. refl;
  get_key_by_hash_hit = Reads.get_key_by_hash_hit;
  get_key_by_hash_miss = Reads.get_key_by_hash_miss;
  hash_cases = Reads.hash_cases;
  hash_unique = Reads.hash_unique;
  api_label = λ m v. v.labelled.api;
  api_parent = λ m v. v.parented.api;
  key_label = λ m v. v.labelled.key;
  create_workspace = λ m v t w fresh h. Writes.create_workspace-Returns m v t w;
  create_api = λ m v t a w e fresh h. Writes.create_api-Returns m v t a w e;
  create_api_orphan = λ m v t a e fresh h. Writes.create_api_orphan m v t a e;
  create_key =
      λ m v t k a w parent owner fresh unused h. create_key-Returns m v t k a parent fresh unused;
  create_key_orphan = λ m v t k e fresh unused h. Writes.create_key_orphan m v t k e;
  create_key_both = λ m v t k j l e fresh held same h. inl (Writes.create_key_orphan m v t k e);
  create_key_conflict = λ m v t k a w j l parent owner fresh held same h.
      Writes.create_key_conflict m v t k a j l parent held same;
  revoke_key = Writes.revoke_key-Returns;
  revoke_key_again = Writes.revoke_key_again;
  revoke_key_missing = λ m v t id e h. Writes.revoke_key_missing m v t id e;
  rotate_key = Writes.rotate_key-Returns;
  rotate_key_conflict = Writes.rotate_key_conflict;
  rotate_key_missing = λ m v t id h e held. Writes.rotate_key_missing m v t id h e;
  touch = Writes.touch-Returns;
  touch_missing = λ m v id at e h. Writes.touch_missing m v id at e;
  decrement = Writes.decrement-Returns;
  decrement_unlimited = Writes.decrement_unlimited;
  decrement_depleted = Writes.decrement_depleted;
  decrement_missing = λ m v t id e h. Writes.decrement_missing m v t id e;
}
