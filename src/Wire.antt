-- ===== src/Wire.antt =====
-- gen/apikey/v1/apikey.pb.go: the messages of the wire contract. `Timestamp` is the type of
-- `*timestamppb.Timestamp`; a pointer field that may be nil is an `Option`.
use keychain.Base.{String, Bool, Option, List}
use keychain.Base.Int.{ℤ}
use keychain.Store.{Metadata}

pub data VerifyResult : Type 0 where
  unspecified valid not_found revoked expired depleted forbidden rate_limited : VerifyResult

pub record Workspace (Timestamp : Type 0) : Type 0 where
  pub workspace_id : String
  pub name : String
  pub owner_principal_id : String
  pub created_at : Timestamp
  pub updated_at : Timestamp
  pub metadata : Metadata

pub record Api (Timestamp : Type 0) : Type 0 where
  pub api_id : String
  pub workspace_id : String
  pub name : String
  pub key_prefix : String
  pub created_at : Timestamp
  pub updated_at : Timestamp
  pub metadata : Metadata

pub record LimitRef : Type 0 where
  pub limit_id : String
  pub scope_key : String

pub record ApiKey (Timestamp : Type 0) : Type 0 where
  pub key_id : String
  pub api_id : String
  pub workspace_id : String
  pub owner_principal_id : String
  pub name : String
  pub permissions : List String
  pub limit_refs : List LimitRef
  pub expires_at : Option Timestamp
  pub remaining_uses : ℤ
  pub enabled : Bool
  pub created_at : Timestamp
  pub updated_at : Timestamp
  pub last_verified_at : Option Timestamp
  pub metadata : Metadata

pub record CreateWorkspaceRequest : Type 0 where
  pub name : String
  pub owner_principal_id : String
  pub metadata : Metadata

pub record CreateWorkspaceResponse (Timestamp : Type 0) : Type 0 where
  pub workspace : Workspace Timestamp

pub record GetWorkspaceRequest : Type 0 where
  pub workspace_id : String

pub record GetWorkspaceResponse (Timestamp : Type 0) : Type 0 where
  pub workspace : Workspace Timestamp

pub record CreateApiRequest : Type 0 where
  pub workspace_id : String
  pub name : String
  pub key_prefix : String
  pub metadata : Metadata

pub record CreateApiResponse (Timestamp : Type 0) : Type 0 where
  pub api : Api Timestamp

pub record GetApiRequest : Type 0 where
  pub api_id : String

pub record GetApiResponse (Timestamp : Type 0) : Type 0 where
  pub api : Api Timestamp

pub record CreateKeyRequest (Timestamp : Type 0) : Type 0 where
  pub api_id : String
  pub owner_principal_id : String
  pub name : String
  pub permissions : List String
  pub limit_refs : List LimitRef
  pub expires_at : Option Timestamp
  pub remaining_uses : ℤ
  pub metadata : Metadata

pub record CreateKeyResponse (Timestamp : Type 0) : Type 0 where
  pub key : ApiKey Timestamp
  pub plaintext : String

pub record VerifyKeyRequest : Type 0 where
  pub plaintext : String
  pub required_permissions : List String
  pub action : String
  pub cost : ℤ
  pub request_id : String
  pub skip_ratelimit : Bool

pub record LimitDecision : Type 0 where
  pub limit_id : String
  pub scope_key : String
  pub allowed : Bool
  pub remaining : ℤ
  pub retry_after_ms : ℤ

pub record VerifyKeyResponse : Type 0 where
  pub valid : Bool
  pub result : VerifyResult
  pub key_id : String
  pub api_id : String
  pub workspace_id : String
  pub owner_principal_id : String
  pub permissions : List String
  pub limit_decisions : List LimitDecision

pub record RevokeKeyRequest : Type 0 where
  pub key_id : String

pub record RevokeKeyResponse : Type 0 where

pub record RotateKeyRequest : Type 0 where
  pub key_id : String

pub record RotateKeyResponse (Timestamp : Type 0) : Type 0 where
  pub key : ApiKey Timestamp
  pub plaintext : String

pub record ListKeysRequest : Type 0 where
  pub api_id : String
  pub owner_principal_id : String
  pub page_size : ℤ
  pub page_token : String

pub record ListKeysResponse (Timestamp : Type 0) : Type 0 where
  pub keys : List (ApiKey Timestamp)
  pub next_page_token : String

pub record GetKeyRequest : Type 0 where
  pub key_id : String

pub record GetKeyResponse (Timestamp : Type 0) : Type 0 where
  pub key : ApiKey Timestamp
