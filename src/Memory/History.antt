-- ===== src/Memory/History.antt =====
-- Every state that a process with the in-memory driver can reach: the steps are the driver's
-- operations, in any order, from any goroutine, since each holds the mutex.
use native.Mathlib.Omega.{arith}
use keychain.Base.{String, Bytes, ◌≡◌, none, Bytes-Comparable, String-Comparable}
use keychain.Base.Map.{get}
use keychain.Store.{Stamp, new_id, Workspace, Api, Key, Time, ListKeysOpts}
use keychain.Memory.{
  Memory, new, create_workspace, get_workspace, create_api, get_api, create_key, get_key_by_id,
  get_key_by_hash, revoke_key, rotate_key, touch_last_verified, decrement_remaining_uses,
}
use keychain.Memory.Page.{list_keys}
use keychain.Memory.Invariant.{
  IsValid, new-IsValid, create_workspace-IsValid, create_api-IsValid, create_key-IsValid,
  revoke_key-IsValid, rotate_key-IsValid, touch_last_verified-IsValid, decrement-IsValid,
}

-- One operation of the driver. The one assumption is that `uuid.NewString` does not repeat the id
-- of a stored key.
pub data Step (m : Memory) : Memory → Type 0 where
  creates_workspace : (s : Stamp) (w : Workspace) → Step m (create_workspace s w m).1
  gets_workspace : (id : String) → Step m (get_workspace id m).1
  creates_api : (s : Stamp) (a : Api) → Step m (create_api s a m).1
  gets_api : (id : String) → Step m (get_api id m).1
  creates_key :
      (s : Stamp) (k : Key) → get (new_id "key" s) m.keys ≡ none → Step m (create_key s k m).1
  gets_key : (id : String) → Step m (get_key_by_id id m).1
  finds_key : (h : Bytes) → Step m (get_key_by_hash h m).1
  revokes_key : (s : Stamp) (id : String) → Step m (revoke_key s id m).1
  rotates_key : (s : Stamp) (id : String) (h : Bytes) → Step m (rotate_key s id h m).1
  lists_keys : (opts : ListKeysOpts) → Step m (list_keys opts m).1
  touches_key : (id : String) (at : Time) → Step m (touch_last_verified id at m).1
  decrements : (s : Stamp) (id : String) → Step m (decrement_remaining_uses s id m).1

pub data Reach : Memory → Type 0 where
  here : Reach new
  next : {m n : Memory} → Reach m → Step m n → Reach n

module _ (m : Memory) where
  -- The reads leave the state alone.
  pub get_workspace-state : (id : String) → (get_workspace id m).1 ≡ m
  unfolding get_workspace
  get_workspace-state id = ground arith

  pub get_api-state : (id : String) → (get_api id m).1 ≡ m
  unfolding get_api
  get_api-state id = ground arith

  pub get_key_by_id-state : (id : String) → (get_key_by_id id m).1 ≡ m
  unfolding get_key_by_id
  get_key_by_id-state id = ground arith

  pub get_key_by_hash-state : (h : Bytes) → (get_key_by_hash h m).1 ≡ m
  unfolding get_key_by_hash
  get_key_by_hash-state h = ground arith

  pub list_keys-state : (opts : ListKeysOpts) → (list_keys opts m).1 ≡ m
  unfolding list_keys
  list_keys-state opts = ground arith

pub Step-IsValid : {m n : Memory} → Step m n → IsValid m → IsValid n
Step-IsValid {m} (creates_workspace s w) v = create_workspace-IsValid m v s w
Step-IsValid {m} (gets_workspace id) v = rw get_workspace-state v
Step-IsValid {m} (creates_api s a) v = create_api-IsValid m v s a
Step-IsValid {m} (gets_api id) v = rw get_api-state v
Step-IsValid {m} (creates_key s k fresh) v = create_key-IsValid m v s k fresh
Step-IsValid {m} (gets_key id) v = rw get_key_by_id-state v
Step-IsValid {m} (finds_key h) v = rw get_key_by_hash-state v
Step-IsValid {m} (revokes_key s id) v = revoke_key-IsValid m v s id
Step-IsValid {m} (rotates_key s id h) v = rotate_key-IsValid m v s id h
Step-IsValid {m} (lists_keys opts) v = rw list_keys-state v
Step-IsValid {m} (touches_key id at) v = touch_last_verified-IsValid m v id at
Step-IsValid {m} (decrements s id) v = decrement-IsValid m v s id

-- In every state that operations of the in-memory driver reach from the empty store, if no uuid
-- repeats the id of a stored key, each record stands under its own id, the parent of each API and
-- key exists, the index by hash and the map of keys agree in both directions, no key id has two
-- entries, and no key id is empty.
pub Reach-IsValid : {m : Memory} → Reach m → IsValid m
Reach-IsValid here = new-IsValid
Reach-IsValid (next r s) = Step-IsValid s (Reach-IsValid r)
