-- ===== src/Store.antt =====
-- keychainserver/store/store.go: the persisted records, the sentinel errors and the persistence
-- boundary that every driver implements.
pub mod View
pub mod Contract
pub mod Page
pub mod Revoking
pub mod Ids
pub mod Held
pub mod Enumeration
pub mod Pages
use Prim.Native.String.{◌++◌ as text_append}
use keychain.Base.{ℕ, String, Bool, true, false, Option, List, Action, Bytes}
use keychain.Base.Map.{Map}
use keychain.Base.Int.{ℤ}

-- A `time.Time`, as the instant that it denotes: nanoseconds since the zero time.
abbrev pub Time : Type 0
Time = ℕ

-- A `map[string]string`; `none` is the nil map.
abbrev pub Metadata : Type 0
Metadata = Option (Map String String)

pub data Sentinel : Type 0 where
  not_found conflict depleted : Sentinel

-- An error value: a sentinel, one wrapped by `fmt.Errorf("<label> %q: %w", …)` or by
-- `fmt.Errorf("<label>: %w", …)`, or any other.
pub data Err : Type 0 where
  sentinel : Sentinel → Err
  wrapped : String → String → Err → Err
  context : String → Err → Err
  opaque : String → Err

abbrev sentinel_eq : Sentinel → Sentinel → Bool
sentinel_eq not_found not_found = true
sentinel_eq conflict conflict = true
sentinel_eq depleted depleted = true
sentinel_eq _ _ = false

-- `errors.Is(err, target)` for a sentinel target: it looks through the wrapping.
abbrev pub errors_is : Err → Sentinel → Bool
errors_is (sentinel s) t = sentinel_eq s t
errors_is (wrapped label arg e) t = errors_is e t
errors_is (context label e) t = errors_is e t
errors_is (opaque message) t = false

pub record Workspace : Type 0 where
  pub workspace_id : String
  pub name : String
  pub owner_principal_id : String
  pub created_at : Time
  pub updated_at : Time
  pub metadata : Metadata

pub record Api : Type 0 where
  pub api_id : String
  pub workspace_id : String
  pub name : String
  pub key_prefix : String
  pub created_at : Time
  pub updated_at : Time
  pub metadata : Metadata

pub record LimitRef : Type 0 where
  pub limit_id : String
  pub scope_key : String

pub record Key : Type 0 where
  pub key_id : String
  pub api_id : String
  pub workspace_id : String
  pub owner_principal_id : String
  pub name : String
  pub key_hash : Bytes
  pub permissions : List String
  pub limit_refs : List LimitRef
  pub expires_at : Option Time
  pub remaining_uses : ℤ
  pub enabled : Bool
  pub created_at : Time
  pub updated_at : Time
  pub last_verified_at : Option Time
  pub metadata : Metadata

pub record ListKeysOpts : Type 0 where
  pub api_id : String
  pub owner_principal_id : String
  pub page_size : ℤ
  pub page_token : String

pub record ListKeysResult : Type 0 where
  pub keys : List Key
  pub next_page_token : String

-- What a driver reads from its surroundings during one call: the instant that its `now` returns,
-- and the text that `uuid.NewString` returns.
pub record Stamp : Type 0 where
  pub now : Time
  pub uuid : String

-- newID, which both drivers declare alike.
abbrev pub new_id : String → Stamp → String
new_id prefix stamp = text_append prefix (text_append "_" stamp.uuid)

-- The `Store` interface over a driver's state. Each operation is one atomic step.
pub record Store (S : Type 0) : Type 0 where
  pub create_workspace : Stamp → Workspace → Action S Err Workspace
  pub get_workspace : String → Action S Err Workspace
  pub create_api : Stamp → Api → Action S Err Api
  pub get_api : String → Action S Err Api
  pub create_key : Stamp → Key → Action S Err Key
  pub get_key_by_id : String → Action S Err Key
  pub get_key_by_hash : Bytes → Action S Err Key
  pub revoke_key : Stamp → String → Action S Err (Unit {0})
  pub rotate_key : Stamp → String → Bytes → Action S Err Key
  pub list_keys : ListKeysOpts → Action S Err ListKeysResult
  pub touch_last_verified : String → Time → Action S Err (Unit {0})
  pub decrement_remaining_uses : Stamp → String → Action S Err ℤ
