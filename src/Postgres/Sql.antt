-- ===== src/Postgres/Sql.antt =====
-- The connection pool of postgres.go: one call for each statement that the driver sends. pgx and the
-- database are parameters; `D` is the state of the database.
use Prim.Native.Nat.{ℕ}
use keychain.Base.{
  String, Bool, false, Option, List, Outcome, Action, Bytes, ◌==◌, String-Comparable,
}
use keychain.Base.Int.{ℤ}
use keychain.Store.{Time, Err, opaque}
use keychain.Postgres.Codec.{WorkspaceRow, ApiRow, KeyRow}

-- pgx.ErrNoRows, a *pgconn.PgError with its code, or any other error.
pub data PgError : Type 0 where
  no_rows : PgError
  violation : String → PgError
  other : String → PgError

unfoldable pub is_fk_violation : PgError → Bool
is_fk_violation no_rows = false
is_fk_violation (violation code) = code == "23503"
is_fk_violation (other message) = false

unfoldable pub is_unique_violation : PgError → Bool
is_unique_violation no_rows = false
is_unique_violation (violation code) = code == "23505"
is_unique_violation (other message) = false

-- The error as a Go `error` value.
abbrev pub as_err : PgError → Err
as_err no_rows = opaque "no rows in result set"
as_err (violation code) = opaque code
as_err (other message) = opaque message

-- The rows of a query: each is scanned or cannot be, and the iteration may end in an error.
pub record ResultSet : Type 0 where
  pub scans : List (Outcome PgError KeyRow)
  pub ended : Option PgError

-- The WHERE clause of `queryKey`.
pub data KeyFilter : Type 0 where
  by_id : String → KeyFilter
  by_hash : Bytes → KeyFilter

pub record Pool (D : Type 0) : Type 0 where
  pub insert_workspace : WorkspaceRow → Action D PgError (Unit {0})
  pub select_workspace : String → Action D PgError WorkspaceRow
  pub insert_api : ApiRow → Action D PgError (Unit {0})
  pub select_api : String → Action D PgError ApiRow
  pub insert_key : KeyRow → Action D PgError (Unit {0})
  pub select_key : KeyFilter → Action D PgError KeyRow
  -- UPDATE keys SET enabled = false, updated_at = $1 WHERE key_id = $2 RETURNING 1
  pub update_enabled : Time → String → Action D PgError ℕ
  -- UPDATE keys SET key_hash = $1, updated_at = $2 WHERE key_id = $3
  pub update_hash : Bytes → Time → String → Action D PgError (Unit {0})
  -- WHERE api_id = $1 AND ($2 = '' OR owner_principal_id = $2) AND ($3 = '' OR key_id > $3)
  -- ORDER BY key_id ASC LIMIT $4
  pub select_page : String → String → String → ℕ → Action D PgError ResultSet
  -- UPDATE keys SET last_verified_at = $1 WHERE key_id = $2, and the number of rows affected
  pub update_last_verified : Time → String → Action D PgError ℕ
  -- UPDATE keys SET remaining_uses = remaining_uses - 1, updated_at = $1
  -- WHERE key_id = $2 AND remaining_uses > 0 RETURNING remaining_uses
  pub update_remaining : Time → String → Action D PgError ℤ
  -- SELECT remaining_uses FROM keys WHERE key_id = $1
  pub select_remaining : String → Action D PgError ℤ
