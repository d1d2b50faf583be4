-- ===== src/Postgres/Tests/Database.antt =====
-- Three tables in memory that behave as `Engine` says.
use keychain.Base.{
  String, String-Comparable, Bytes, Bytes-Comparable, ◌≡◌, false, Option, none, some, [], Outcome,
  ok, err, Action, if◌then◌else◌,
}
use keychain.Base.Map.{Map, get, put, delete}
use keychain.Base.Int.{ℤ, is_pos, pred}
use keychain.Store.{Time}
use keychain.Base.{map, ◌&&◌, ◌||◌, Bool, List, ℕ, ◌==◌, ◌∷◌}
use keychain.Postgres.Sql.{ResultSet}
use keychain.Base.Lists.{take}
use keychain.Base.Order.{str_lt}
use keychain.Memory.{taken_by_other}
use keychain.Memory.Index.{Indexed}
use keychain.Postgres.Codec.{WorkspaceRow, ApiRow, KeyRow}
use keychain.Postgres.Sql.{Pool, PgError, no_rows, by_id, by_hash, KeyFilter}
use keychain.Postgres.Engine.{
  Tables, fetched, foreign_key, unique, stored_workspace, stored_api, stored_key,
}
use keychain.Postgres.Tests.Encoding.{columns}

pub record Database : Type 0 where
  pub workspaces : Map String WorkspaceRow
  pub apis : Map String ApiRow
  pub keys : Map String KeyRow
  pub hash_index : Map Bytes String

abbrev pub tables : Database → Tables
tables d = record {
  workspaces = λ id. get id d.workspaces;
  apis = λ id. get id d.apis;
  keys = λ id. get id d.keys;
}

abbrev pub row_hash : KeyRow → Bytes
row_hash r = r.key_hash

pub record Sound (d : Database) : Type 0 where
  pub workspace :
      (id : String) (r : WorkspaceRow) → get id d.workspaces ≡ some r → r.workspace_id ≡ id
  pub api : (id : String) (r : ApiRow) → get id d.apis ≡ some r → r.api_id ≡ id
  pub key : (id : String) (r : KeyRow) → get id d.keys ≡ some r → r.key_id ≡ id
  pub parent :
      (id : String) (r : ApiRow)
      → get id d.apis ≡ some r
      → (w : WorkspaceRow) × (get r.workspace_id d.workspaces ≡ some w)
  pub indexed : Indexed row_hash d.keys d.hash_index

abbrev pub set_row : String → KeyRow → Database → Database
set_row id r d = record d { keys = put id r d.keys }

abbrev pub insert_workspace : WorkspaceRow → Action Database PgError (Unit {0})
insert_workspace r d = elim (get r.workspace_id d.workspaces) [
  | some _ ↦ (err unique, d)
  | none ↦ (
    ok tt,
    record d { workspaces = put r.workspace_id (stored_workspace columns r) d.workspaces },
  )
]

abbrev pub insert_api : ApiRow → Action Database PgError (Unit {0})
insert_api r d = elim (get r.api_id d.apis) [
  | some _ ↦ (err unique, d)
  | none ↦ elim (get r.workspace_id d.workspaces) [
    | none ↦ (err foreign_key, d)
    | some _ ↦ (ok tt, record d { apis = put r.api_id (stored_api columns r) d.apis })
  ]
]

abbrev pub insert_referenced :
    KeyRow → Option ApiRow → Option WorkspaceRow → Action Database PgError (Unit {0})
insert_referenced r (some a) (some w) d = (
  ok tt,
  record (set_row r.key_id (stored_key columns r) d) {
    hash_index = put r.key_hash r.key_id d.hash_index;
  },
)
insert_referenced r _ _ d = (err foreign_key, d)

abbrev pub insert_key : KeyRow → Action Database PgError (Unit {0})
insert_key r d = elim (get r.key_hash d.hash_index) [
  | some _ ↦ (err unique, d)
  | none ↦ elim (get r.key_id d.keys) [
    | some _ ↦ (err unique, d)
    | none ↦ insert_referenced r (get r.api_id d.apis) (get r.workspace_id d.workspaces) d
  ]
]

abbrev row_at : Database → Option String → Option KeyRow
row_at d none = none
row_at d (some id) = get id d.keys

abbrev pub select_key : KeyFilter → Action Database PgError KeyRow
select_key (by_id id) d = (fetched (get id d.keys), d)
select_key (by_hash h) d = (fetched (row_at d (get h d.hash_index)), d)

-- An UPDATE of one row that touches neither its id nor its hash.
abbrev pub set_where :
    {A : Type 0}
    → (KeyRow → KeyRow)
    → (KeyRow → A)
    → Outcome PgError A
    → String
    → Action Database PgError A
set_where g f miss id d = elim (get id d.keys) [
  | none ↦ (miss, d)
  | some r ↦ (ok (f r), set_row id (g r) d)
]

abbrev pub update_hash : Bytes → Time → String → Action Database PgError (Unit {0})
update_hash h now id d = elim (get id d.keys) [
  | none ↦ (ok tt, d)
  | some r ↦ if taken_by_other (get h d.hash_index) id then (err unique, d) else (
    ok tt,
    record (set_row id (record r { key_hash = h; updated_at = columns.timestamptz now }) d) {
      hash_index = put h id (delete r.key_hash d.hash_index);
    },
  )
]

abbrev pub update_remaining : Time → String → Action Database PgError ℤ
update_remaining now id d = elim (get id d.keys) [
  | none ↦ (err no_rows, d)
  | some r ↦
      if is_pos r.remaining_uses
      then (
        ok (pred r.remaining_uses),
        set_row id
            (record r {
              remaining_uses = pred r.remaining_uses;
              updated_at = columns.timestamptz now;
            })
            d,
      )
      else (err no_rows, d)
]

abbrev uses : Option KeyRow → Outcome PgError ℤ
uses none = err no_rows
uses (some r) = ok r.remaining_uses

-- The WHERE clause of the query of `ListKeys`.
abbrev pub is_asked : String → String → String → KeyRow → Bool
is_asked api owner token r =
    r.api_id == api
    && (owner == "" || r.owner_principal_id == owner)
    && (token == "" || str_lt token r.key_id)

abbrev pub insert_row : KeyRow → List KeyRow → List KeyRow
insert_row r [] = r ∷ []
insert_row r (q ∷ rs) = if str_lt q.key_id r.key_id then q ∷ insert_row r rs else r ∷ q ∷ rs

abbrev pub asked_rows : (KeyRow → Bool) → Map String KeyRow → List KeyRow
asked_rows p [] = []
asked_rows p ((id, r) ∷ keys) =
    let rest = asked_rows p keys in if p r then insert_row r rest else rest

abbrev pub select_page : String → String → String → ℕ → Action Database PgError ResultSet
select_page api owner token n d = (
  ok (record {
    scans = map ok (take n (asked_rows (is_asked api owner token) d.keys));
    ended = none;
  }),
  d,
)

abbrev pub pool : Pool Database
pool = record {
  insert_workspace = insert_workspace;
  select_workspace = λ id d. (fetched (get id d.workspaces), d);
  insert_api = insert_api;
  select_api = λ id d. (fetched (get id d.apis), d);
  insert_key = insert_key;
  select_key = select_key;
  update_enabled = λ now.
      set_where (λ r. record r { enabled = false; updated_at = columns.timestamptz now }) (λ r. 1)
        (err no_rows);
  update_hash = update_hash;
  select_page = select_page;
  update_last_verified = λ at.
      set_where (λ r. record r { last_verified_at = some (columns.timestamptz at) }) (λ r. 1)
        (ok 0);
  update_remaining = update_remaining;
  select_remaining = λ id d. (uses (get id d.keys), d);
}

abbrev pub empty : Database
empty = record { workspaces = []; apis = []; keys = []; hash_index = [] }
