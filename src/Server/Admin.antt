-- ===== src/Server/Admin.antt =====
-- The admin handlers of server.go: workspaces, APIs and keys.
use keychain.Base.{
  String, true, Option, map, Action, Bytes, pure, fail, ◌>>=◌, ◌>>◌, ◌==◌, String-Comparable,
  if◌then◌else◌,
}
use keychain.Base.Int.{ℤ, negsuc, is_pos}
use keychain.Store.{Key, Api}
use keychain.Keymat
use keychain.Wire
use keychain.Server.{
  Server, World, Readings, Status, status, invalid_argument, internal, text, labelled,
  map_store_err, map_err, call_store, or_status, lift,
}
use keychain.Server.Convert.{
  Timestamps, workspace_to_proto, api_to_proto, key_to_proto, limit_refs_from_proto,
  time_from_proto,
}

-- An unset or negative number of uses means that there is no limit.
unfoldable pub issued_uses : ℤ → ℤ
issued_uses n = if is_pos n then n else negsuc 0

module _ {S R : Type 0} where
  -- `if req.Get…() == "" { return nil, status.Error(codes.InvalidArgument, …) }`
  abbrev pub require : String → String → Action (World S R) Status (Unit {0})
  require value message =
      if value == "" then fail (status invalid_argument (text message)) else pure tt

module _ {S R : Type 0} (ts : Timestamps) (sum256 : String → Bytes) (srv : Server S R)
    (env : Readings) where
  open ts use {Timestamp}

  unfoldable pub create_workspace :
      Wire.CreateWorkspaceRequest
      → Action (World S R) Status (Wire.CreateWorkspaceResponse Timestamp)
  create_workspace req = do
    require req.name "name is required"
    require req.owner_principal_id "owner_principal_id is required"
    w ← or_status map_store_err (
        call_store (
          srv.store.create_workspace env.stamp (record {
            workspace_id = "";
            name = req.name;
            owner_principal_id = req.owner_principal_id;
            created_at = 0;
            updated_at = 0;
            metadata = req.metadata;
          })))
    pure (record { workspace = workspace_to_proto ts w })

  unfoldable pub get_workspace :
      Wire.GetWorkspaceRequest → Action (World S R) Status (Wire.GetWorkspaceResponse Timestamp)
  get_workspace req = do
    require req.workspace_id "workspace_id is required"
    w ← or_status map_store_err (call_store (srv.store.get_workspace req.workspace_id))
    pure (record { workspace = workspace_to_proto ts w })

  unfoldable pub create_api :
      Wire.CreateApiRequest → Action (World S R) Status (Wire.CreateApiResponse Timestamp)
  create_api req = do
    require req.workspace_id "workspace_id is required"
    require req.name "name is required"
    a ← or_status map_store_err (
        call_store (
          srv.store.create_api env.stamp (record {
            api_id = "";
            workspace_id = req.workspace_id;
            name = req.name;
            key_prefix = req.key_prefix;
            created_at = 0;
            updated_at = 0;
            metadata = req.metadata;
          })))
    pure (record { api = api_to_proto ts a })

  unfoldable pub get_api :
      Wire.GetApiRequest → Action (World S R) Status (Wire.GetApiResponse Timestamp)
  get_api req = do
    require req.api_id "api_id is required"
    a ← or_status map_store_err (call_store (srv.store.get_api req.api_id))
    pure (record { api = api_to_proto ts a })

  -- newKeyMaterial(prefix)
  unfoldable pub key_material : String → Action (World S R) Status (String × Bytes)
  key_material prefix = lift (
      map_err (λ e. status internal (labelled "generate key material" e))
        (Keymat.new sum256 prefix env.random))

  -- The record that `CreateKey` hands to the store.
  unfoldable pub issued_key : Wire.CreateKeyRequest Timestamp → Api → Bytes → Key
  unfolding issued_uses limit_refs_from_proto
  issued_key req api hash = record {
    key_id = "";
    api_id = api.api_id;
    workspace_id = api.workspace_id;
    owner_principal_id = req.owner_principal_id;
    name = req.name;
    key_hash = hash;
    permissions = req.permissions;
    limit_refs = limit_refs_from_proto req.limit_refs;
    expires_at = time_from_proto ts req.expires_at;
    remaining_uses = issued_uses req.remaining_uses;
    enabled = true;
    created_at = 0;
    updated_at = 0;
    last_verified_at = Option.none;
    metadata = req.metadata;
  }

  unfoldable pub create_key :
      Wire.CreateKeyRequest Timestamp → Action (World S R) Status (Wire.CreateKeyResponse Timestamp)
  unfolding key_material issued_key
  create_key req = do
    require req.api_id "api_id is required"
    require req.owner_principal_id "owner_principal_id is required"
    api ← or_status map_store_err (call_store (srv.store.get_api req.api_id))
    material ← key_material api.key_prefix
    created ←
        or_status map_store_err
          (call_store (srv.store.create_key env.stamp (issued_key req api material.1)))
    pure (record { key = key_to_proto ts created; plaintext = material.0 })

  unfoldable pub get_key :
      Wire.GetKeyRequest → Action (World S R) Status (Wire.GetKeyResponse Timestamp)
  get_key req = do
    require req.key_id "key_id is required"
    k ← or_status map_store_err (call_store (srv.store.get_key_by_id req.key_id))
    pure (record { key = key_to_proto ts k })

  unfoldable pub revoke_key :
      Wire.RevokeKeyRequest → Action (World S R) Status Wire.RevokeKeyResponse
  revoke_key req = do
    require req.key_id "key_id is required"
    or_status map_store_err (call_store (srv.store.revoke_key env.stamp req.key_id))
    pure (record {})

  unfoldable pub rotate_key :
      Wire.RotateKeyRequest → Action (World S R) Status (Wire.RotateKeyResponse Timestamp)
  unfolding key_material
  rotate_key req = do
    require req.key_id "key_id is required"
    existing ← or_status map_store_err (call_store (srv.store.get_key_by_id req.key_id))
    api ← or_status map_store_err (call_store (srv.store.get_api existing.api_id))
    material ← key_material api.key_prefix
    rotated ←
        or_status map_store_err (call_store (srv.store.rotate_key env.stamp req.key_id material.1))
    pure (record { key = key_to_proto ts rotated; plaintext = material.0 })

  unfoldable pub list_keys :
      Wire.ListKeysRequest → Action (World S R) Status (Wire.ListKeysResponse Timestamp)
  list_keys req = do
    require req.api_id "api_id is required"
    res ← or_status map_store_err (
        call_store (
          srv.store.list_keys (record {
            api_id = req.api_id;
            owner_principal_id = req.owner_principal_id;
            page_size = req.page_size;
            page_token = req.page_token;
          })))
    pure (record { keys = map (key_to_proto ts) res.keys; next_page_token = res.next_page_token })
