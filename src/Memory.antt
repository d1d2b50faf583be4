-- ===== src/Memory.antt =====
-- keychainserver/store/memory/memory.go: the in-memory driver. Each operation runs under the
-- store's mutex, so it is one step on the state. A value that the code clones is immutable here;
-- the clones keep what a caller's later writes could not reach.
pub mod Page
pub mod Clone
pub mod Index
pub mod Invariant
pub mod History
pub mod Driver
pub mod Reads
pub mod Writes
pub mod Refinement
pub mod Paging
pub mod Split
pub mod Pages
pub mod Walk
pub mod Listing
pub mod Enumeration
pub mod Tests
use keychain.Base.{
  String, Bool, false, not, Option, none, some, [], ◌++◌, ok, err, Action, Bytes, ◌==◌,
  if◌then◌else◌, String-Comparable, Bytes-Comparable,
}
use keychain.Base.Map.{Map, get, put, delete}
use keychain.Base.Int.{ℤ, pos, negsuc, is_neg, is_zero, pred}
use keychain.Store.{
  Time, Metadata, Err, sentinel, wrapped, not_found, conflict, depleted, Workspace, Api, Key, Stamp,
  new_id,
}

pub record Memory : Type 0 where
  pub workspaces : Map String Workspace
  pub apis : Map String Api
  pub keys : Map String Key
  pub hash_index : Map Bytes String

-- New()
abbrev pub new : Memory
new = record { workspaces = []; apis = []; keys = []; hash_index = [] }

pub clone_time_ptr : Option Time → Option Time
clone_time_ptr none = none
clone_time_ptr (some t) = some t

-- maps.Clone
pub clone_map : Metadata → Metadata
clone_map none = none
clone_map (some m) = some ([] ++ m)

unfoldable pub clone_workspace : Workspace → Workspace
unfolding clone_map
clone_workspace w = record w { metadata = clone_map w.metadata }

unfoldable pub clone_api : Api → Api
unfolding clone_map
clone_api a = record a { metadata = clone_map a.metadata }

-- append([]T(nil), xs...) is `[] ++ xs`.
unfoldable pub clone_key : Key → Key
unfolding clone_map clone_time_ptr
clone_key k = record k {
  key_hash = [] ++ k.key_hash;
  permissions = [] ++ k.permissions;
  limit_refs = [] ++ k.limit_refs;
  expires_at = clone_time_ptr k.expires_at;
  last_verified_at = clone_time_ptr k.last_verified_at;
  metadata = clone_map k.metadata;
}

unfoldable pub create_workspace : Stamp → Workspace → Action Memory Err Workspace
create_workspace stamp w m = (
  ok (clone_workspace w'),
  record m { workspaces = put w'.workspace_id (clone_workspace w') m.workspaces },
)
  where
    w' : Workspace
    w' = record w {
      workspace_id = new_id "ws" stamp;
      created_at = stamp.now;
      updated_at = stamp.now;
    }

unfoldable pub get_workspace : String → Action Memory Err Workspace
get_workspace id m = elim (get id m.workspaces) [
  | none ↦ (err (sentinel not_found), m)
  | some w ↦ (ok (clone_workspace w), m)
]

stamp_api : Stamp → Api → Api
stamp_api stamp a = record a {
  api_id = new_id "api" stamp;
  created_at = stamp.now;
  updated_at = stamp.now;
}

unfoldable pub create_api : Stamp → Api → Action Memory Err Api
unfolding stamp_api
create_api stamp a m = elim (get a.workspace_id m.workspaces) [
  | none ↦ (err (wrapped "workspace" a.workspace_id (sentinel not_found)), m)
  | some _ ↦
      let a' = stamp_api stamp a in
      (ok (clone_api a'), record m { apis = put a'.api_id (clone_api a') m.apis })
]

unfoldable pub get_api : String → Action Memory Err Api
get_api id m = elim (get id m.apis) [
  | none ↦ (err (sentinel not_found), m)
  | some a ↦ (ok (clone_api a), m)
]

stamp_key : Stamp → Key → Key
stamp_key stamp k = record k {
  key_id = new_id "key" stamp;
  created_at = stamp.now;
  updated_at = stamp.now;
}

insert_key : Key → Bytes → Action Memory Err Key
insert_key k hash_key m = (
  ok (clone_key k),
  record m { keys = put k.key_id k m.keys; hash_index = put hash_key k.key_id m.hash_index },
)

unfoldable pub create_key : Stamp → Key → Action Memory Err Key
unfolding stamp_key insert_key
create_key stamp k m = elim (get k.api_id m.apis) [
  | none ↦ (err (wrapped "api" k.api_id (sentinel not_found)), m)
  | some _ ↦ elim (get k.key_hash m.hash_index) [
    | some _ ↦ (err (sentinel conflict), m)
    | none ↦ insert_key (clone_key (stamp_key stamp k)) k.key_hash m
  ]
]

unfoldable pub get_key_by_id : String → Action Memory Err Key
get_key_by_id id m = elim (get id m.keys) [
  | none ↦ (err (sentinel not_found), m)
  | some k ↦ (ok (clone_key k), m)
]

-- Go's zero value of a `Key`: what `s.keys[id]` yields for a missing id.
abbrev zero_key : Key
zero_key = record {
  key_id = "";
  api_id = "";
  workspace_id = "";
  owner_principal_id = "";
  name = "";
  key_hash = [];
  permissions = [];
  limit_refs = [];
  expires_at = none;
  remaining_uses = pos 0;
  enabled = false;
  created_at = 0;
  updated_at = 0;
  last_verified_at = none;
  metadata = none;
}

-- m[id] with no `ok`.
pub key_at : String → Memory → Key
key_at id m = elim (get id m.keys) [ none ↦ zero_key | some k ↦ k ]

unfoldable pub get_key_by_hash : Bytes → Action Memory Err Key
unfolding key_at
get_key_by_hash hash m = elim (get hash m.hash_index) [
  | none ↦ (err (sentinel not_found), m)
  | some id ↦ (ok (clone_key (key_at id m)), m)
]

pub set_key : Key → String → Memory → Memory
set_key k id m = record m { keys = put id k m.keys }

unfoldable pub revoke_key : Stamp → String → Action Memory Err (Unit {0})
unfolding set_key
revoke_key stamp id m = elim (get id m.keys) [
  | none ↦ (err (sentinel not_found), m)
  | some k ↦
      if not k.enabled
      then (ok tt, m)
      else (ok tt, set_key (record k { enabled = false; updated_at = stamp.now }) id m)
]

-- `existingID, exists := s.hashIndex[h]; exists && existingID != id`
pub taken_by_other : Option String → String → Bool
taken_by_other none id = false
taken_by_other (some existing) id = not (existing == id)

pub rehash : Stamp → Key → String → Bytes → Action Memory Err Key
unfolding set_key
rehash stamp k id new_hash m =
    let k' = record k { key_hash = [] ++ new_hash; updated_at = stamp.now } in
    (
      ok (clone_key k'),
      record (set_key k' id m) { hash_index = put new_hash id (delete k.key_hash m.hash_index) },
    )

unfoldable pub rotate_key : Stamp → String → Bytes → Action Memory Err Key
unfolding taken_by_other rehash
rotate_key stamp id new_hash m = elim (get id m.keys) [
  | none ↦ (err (sentinel not_found), m)
  | some k ↦
      if taken_by_other (get new_hash m.hash_index) id
      then (err (sentinel conflict), m)
      else rehash stamp k id new_hash m
]

unfoldable pub touch_last_verified : String → Time → Action Memory Err (Unit {0})
unfolding set_key
touch_last_verified id at m = elim (get id m.keys) [
  | none ↦ (err (sentinel not_found), m)
  | some k ↦ (ok tt, set_key (record k { last_verified_at = some at }) id m)
]

unfoldable pub decrement_remaining_uses : Stamp → String → Action Memory Err ℤ
unfolding set_key
decrement_remaining_uses stamp id m = elim (get id m.keys) [
  | none ↦ (err (sentinel not_found), m)
  | some k ↦
      if is_neg k.remaining_uses
      then (ok (negsuc 0), m)
      else if is_zero k.remaining_uses
      then (err (sentinel depleted), m)
      else (
        ok (pred k.remaining_uses),
        set_key (record k { remaining_uses = pred k.remaining_uses; updated_at = stamp.now }) id m,
      )
]
