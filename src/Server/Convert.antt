-- ===== src/Server/Convert.antt =====
-- The converters of server.go, between the wire messages and the stored records. The functions
-- `timestamppb.New` and `Timestamp.AsTime` are parameters.
use keychain.Base.{Option, none, some, List, map}
use keychain.Store
use keychain.Store.{Time}
use keychain.Wire
use keychain.Server.{LimitDecision}

-- The parts of timestamppb that the service calls.
pub record Timestamps : Type 1 where
  pub Timestamp : Type 0
  pub new : Time → Timestamp
  pub as_time : Timestamp → Time

-- A `nil` stays `nil`.
abbrev pub map_ptr : {A B : Type 0} → (A → B) → Option A → Option B
map_ptr f none = none
map_ptr f (some a) = some (f a)

unfoldable pub limit_refs_to_proto : List Store.LimitRef → List Wire.LimitRef
limit_refs_to_proto = map λ r. record { limit_id = r.limit_id; scope_key = r.scope_key }

unfoldable pub limit_refs_from_proto : List Wire.LimitRef → List Store.LimitRef
limit_refs_from_proto = map λ r. record { limit_id = r.limit_id; scope_key = r.scope_key }

unfoldable pub limit_decisions_to_proto : List LimitDecision → List Wire.LimitDecision
limit_decisions_to_proto = map λ d. record {
  limit_id = d.limit_id;
  scope_key = d.scope_key;
  allowed = d.allowed;
  remaining = d.remaining;
  retry_after_ms = d.retry_after_ms;
}

module _ (ts : Timestamps) where
  open ts use {Timestamp, new, as_time}

  unfoldable pub time_from_proto : Option Timestamp → Option Time
  time_from_proto = map_ptr as_time

  unfoldable pub workspace_to_proto : Store.Workspace → Wire.Workspace Timestamp
  workspace_to_proto w = record {
    workspace_id = w.workspace_id;
    name = w.name;
    owner_principal_id = w.owner_principal_id;
    created_at = new w.created_at;
    updated_at = new w.updated_at;
    metadata = w.metadata;
  }

  unfoldable pub api_to_proto : Store.Api → Wire.Api Timestamp
  api_to_proto a = record {
    api_id = a.api_id;
    workspace_id = a.workspace_id;
    name = a.name;
    key_prefix = a.key_prefix;
    created_at = new a.created_at;
    updated_at = new a.updated_at;
    metadata = a.metadata;
  }

  unfoldable pub key_to_proto : Store.Key → Wire.ApiKey Timestamp
  unfolding limit_refs_to_proto
  key_to_proto k = record {
    key_id = k.key_id;
    api_id = k.api_id;
    workspace_id = k.workspace_id;
    owner_principal_id = k.owner_principal_id;
    name = k.name;
    permissions = k.permissions;
    limit_refs = limit_refs_to_proto k.limit_refs;
    expires_at = map_ptr new k.expires_at;
    remaining_uses = k.remaining_uses;
    enabled = k.enabled;
    created_at = new k.created_at;
    updated_at = new k.updated_at;
    last_verified_at = map_ptr new k.last_verified_at;
    metadata = k.metadata;
  }
