-- ===== src/Postgres/Codec.antt =====
-- keychainserver/store/postgres/postgres.go: the rows of the three tables, the JSON columns, and the
-- conversions between rows and records. The package encoding/json is a parameter.
use keychain.Base.{String, Bool, Option, none, some, List, [], ◌∷◌, Outcome, ok, err, Bytes}
use keychain.Base.Map.{Map}
use keychain.Base.Int.{ℤ}
use keychain.Store.{Time, Metadata, Err, context, Workspace, Api, Key, LimitRef}

-- What the driver calls of encoding/json. `unmarshal_map` is what a map that was empty holds after
-- the call, whose error the driver drops.
pub record Json : Type 0 where
  pub marshal_map : Map String String → Bytes
  pub unmarshal_map : Bytes → Map String String
  pub marshal_refs : List LimitRef → Bytes
  pub unmarshal_refs : Bytes → Outcome Err (List LimitRef)

pub record WorkspaceRow : Type 0 where
  pub workspace_id : String
  pub name : String
  pub owner_principal_id : String
  pub created_at : Time
  pub updated_at : Time
  pub metadata : Bytes

pub record ApiRow : Type 0 where
  pub api_id : String
  pub workspace_id : String
  pub name : String
  pub key_prefix : String
  pub created_at : Time
  pub updated_at : Time
  pub metadata : Bytes

pub record KeyRow : Type 0 where
  pub key_id : String
  pub api_id : String
  pub workspace_id : String
  pub owner_principal_id : String
  pub name : String
  pub key_hash : Bytes
  pub permissions : List String
  pub limit_refs : Bytes
  pub expires_at : Option Time
  pub remaining_uses : ℤ
  pub enabled : Bool
  pub created_at : Time
  pub updated_at : Time
  pub last_verified_at : Option Time
  pub metadata : Bytes

-- A nil and an empty slice are one list here.
unfoldable pub non_nil_strings : List String → List String
non_nil_strings [] = []
non_nil_strings (s ∷ ss) = s ∷ ss

unfoldable pub nil_if_empty : Map String String → Metadata
nil_if_empty [] = none
nil_if_empty (e ∷ m) = some (e ∷ m)

-- A `sql.NullTime`, copied to a pointer.
unfoldable pub null_time : Option Time → Option Time
null_time none = none
null_time (some t) = some t

module _ (json : Json) where
  unfoldable pub marshal_metadata : Metadata → Bytes
  marshal_metadata none = b'{' ∷ b'}' ∷ []
  marshal_metadata (some m) = json.marshal_map m

  unfoldable pub unmarshal_metadata : Bytes → Metadata
  unfolding nil_if_empty
  unmarshal_metadata [] = none
  unmarshal_metadata (b ∷ bs) = nil_if_empty (json.unmarshal_map (b ∷ bs))

  -- The arguments of the three INSERT statements.
  abbrev pub workspace_row : Workspace → WorkspaceRow
  workspace_row w = record {
    workspace_id = w.workspace_id;
    name = w.name;
    owner_principal_id = w.owner_principal_id;
    created_at = w.created_at;
    updated_at = w.updated_at;
    metadata = marshal_metadata w.metadata;
  }

  abbrev pub api_row : Api → ApiRow
  api_row a = record {
    api_id = a.api_id;
    workspace_id = a.workspace_id;
    name = a.name;
    key_prefix = a.key_prefix;
    created_at = a.created_at;
    updated_at = a.updated_at;
    metadata = marshal_metadata a.metadata;
  }

  unfoldable pub key_row : Key → KeyRow
  unfolding non_nil_strings
  key_row k = record {
    key_id = k.key_id;
    api_id = k.api_id;
    workspace_id = k.workspace_id;
    owner_principal_id = k.owner_principal_id;
    name = k.name;
    key_hash = k.key_hash;
    permissions = non_nil_strings k.permissions;
    limit_refs = json.marshal_refs k.limit_refs;
    expires_at = k.expires_at;
    remaining_uses = k.remaining_uses;
    enabled = k.enabled;
    created_at = k.created_at;
    updated_at = k.updated_at;
    last_verified_at = k.last_verified_at;
    metadata = marshal_metadata k.metadata;
  }

  -- What a scanned row becomes.
  abbrev pub workspace_of : WorkspaceRow → Workspace
  workspace_of r = record {
    workspace_id = r.workspace_id;
    name = r.name;
    owner_principal_id = r.owner_principal_id;
    created_at = r.created_at;
    updated_at = r.updated_at;
    metadata = unmarshal_metadata r.metadata;
  }

  abbrev pub api_of : ApiRow → Api
  api_of r = record {
    api_id = r.api_id;
    workspace_id = r.workspace_id;
    name = r.name;
    key_prefix = r.key_prefix;
    created_at = r.created_at;
    updated_at = r.updated_at;
    metadata = unmarshal_metadata r.metadata;
  }

  unfoldable pub key_with : KeyRow → List LimitRef → Key
  unfolding null_time
  key_with r refs = record {
    key_id = r.key_id;
    api_id = r.api_id;
    workspace_id = r.workspace_id;
    owner_principal_id = r.owner_principal_id;
    name = r.name;
    key_hash = r.key_hash;
    permissions = r.permissions;
    limit_refs = refs;
    expires_at = null_time r.expires_at;
    remaining_uses = r.remaining_uses;
    enabled = r.enabled;
    created_at = r.created_at;
    updated_at = r.updated_at;
    last_verified_at = null_time r.last_verified_at;
    metadata = unmarshal_metadata r.metadata;
  }

  unfoldable pub key_of : KeyRow → Outcome Err Key
  key_of r = elim (json.unmarshal_refs r.limit_refs) [
    | err e ↦ err (context "unmarshal limit_refs" e)
    | ok refs ↦ ok (key_with r refs)
  ]
