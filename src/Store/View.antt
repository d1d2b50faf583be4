-- ===== src/Store/View.antt =====
-- The abstract view of a driver's state, three finite maps by id, the writes to it, and how precisely
-- a driver keeps what it is given.
use keychain.Base.{
  String, Bytes, ◌≡◌, ◌≢◌, Bool, Option, none, some, Outcome, ok, err, String-Comparable,
}
use keychain.Base.Map.{update}
use keychain.Store.{Metadata, Time, Err, sentinel, not_found, Workspace, Api, Key, Stamp, new_id}

pub record View : Type 0 where
  pub workspaces : String → Option Workspace
  pub apis : String → Option Api
  pub keys : String → Option Key

abbrev pub with_workspace : Workspace → View → View
with_workspace w v = record v { workspaces = update w.workspace_id w v.workspaces }

abbrev pub with_api : Api → View → View
with_api a v = record v { apis = update a.api_id a v.apis }

abbrev pub with_key : String → Key → View → View
with_key id k v = record v { keys = update id k v.keys }

-- The record, or `ErrNotFound`.
abbrev pub found : {A : Type 0} → Option A → Outcome Err A
found none = err (sentinel not_found)
found (some a) = ok a

-- No key other than `id` has the hash.
abbrev pub HashFree : View → String → Bytes → Type 0
HashFree v id h = (j : String) (k : Key) → v.keys j ≡ some k → id ≢ j → k.key_hash ≢ h

-- No key has the hash.
abbrev pub HashUnused : View → Bytes → Type 0
HashUnused v h = (j : String) (k : Key) → v.keys j ≡ some k → k.key_hash ≢ h

-- The records that the creating operations store.
abbrev pub stamped_workspace : Stamp → Workspace → Workspace
stamped_workspace s w = record w {
  workspace_id = new_id "ws" s;
  created_at = s.now;
  updated_at = s.now;
}

abbrev pub stamped_api : Stamp → Api → Api
stamped_api s a = record a { api_id = new_id "api" s; created_at = s.now; updated_at = s.now }

abbrev pub stamped_key : Stamp → Key → Key
stamped_key s k = record k { key_id = new_id "key" s; created_at = s.now; updated_at = s.now }

-- What a driver keeps of an instant and of a metadata map that it is given; the instant of the update
-- after a key that was updated at the second instant is revoked again at the first; and the texts
-- and the records that the driver can hold.
pub record Precision : Type 0 where
  pub time : Time → Time
  pub metadata : Metadata → Metadata
  pub updated_again : Time → Time → Time
  pub holds_text : String → Bool
  pub holds_workspace : Workspace → Bool
  pub holds_api : Api → Bool
  pub holds_key : Key → Bool

module _ (p : Precision) where
  abbrev pub kept_time : Option Time → Option Time
  kept_time none = none
  kept_time (some t) = some (p.time t)

  abbrev pub kept_workspace : Workspace → Workspace
  kept_workspace w = record w {
    created_at = p.time w.created_at;
    updated_at = p.time w.updated_at;
    metadata = p.metadata w.metadata;
  }

  abbrev pub kept_api : Api → Api
  kept_api a = record a {
    created_at = p.time a.created_at;
    updated_at = p.time a.updated_at;
    metadata = p.metadata a.metadata;
  }

  abbrev pub kept_key : Key → Key
  kept_key k = record k {
    expires_at = kept_time k.expires_at;
    created_at = p.time k.created_at;
    updated_at = p.time k.updated_at;
    last_verified_at = kept_time k.last_verified_at;
    metadata = p.metadata k.metadata;
  }
