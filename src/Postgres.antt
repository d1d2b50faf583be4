-- ===== src/Postgres.antt =====
-- keychainserver/store/postgres/postgres.go: the operations of the Postgres driver, each the
-- statements that it sends and what it makes of their results.
pub mod Codec
pub mod Sql
pub mod Engine
pub mod View
pub mod Reads
pub mod Writes
pub mod Failures
pub mod Refinement
pub mod Query
pub mod Scan
pub mod Listing
pub mod Setup
pub mod Tests
use keychain.Base.{
  ℕ, zero, suc, ◌+◌, ◌-◌, String, Option, none, some, List, [], ◌∷◌, Outcome, ok, err, Action,
  Bytes, if◌then◌else◌, ltb, nat_eq,
}
use keychain.Base.Int.{ℤ, pos, negsuc, is_neg}
use keychain.Base.Lists.{length, get_elem?, take}
use keychain.Store.{
  Time, Err, sentinel, wrapped, context, opaque, not_found, conflict, depleted, Workspace, Api, Key,
  ListKeysOpts, ListKeysResult, Stamp, new_id,
}
use Codec.{
  Json, WorkspaceRow, ApiRow, KeyRow, workspace_row, api_row, key_row, workspace_of, api_of, key_of,
}
use Sql.{
  PgError, no_rows, violation, other, is_fk_violation, is_unique_violation, as_err, ResultSet,
  KeyFilter, by_id, by_hash, Pool,
}

-- One statement, and what the driver makes of its result.
abbrev pub respond :
    {D A B : Type 0} → (Outcome PgError A → Outcome Err B) → Action D PgError A → Action D Err B
respond f m d = let (r, d') = m d in (f r, d')

-- ErrNotFound for no row, or the error in its context.
abbrev pub missing_or : String → PgError → Err
missing_or label no_rows = sentinel not_found
missing_or label (violation code) = context label (as_err (violation code))
missing_or label (other message) = context label (as_err (other message))

module _ {A : Type 0} where
  unfoldable pub workspace_inserted : A → Outcome PgError (Unit {0}) → Outcome Err A
  workspace_inserted w (ok _) = ok w
  workspace_inserted w (err e) = err (context "insert workspace" (as_err e))

  unfoldable pub api_inserted : A → String → Outcome PgError (Unit {0}) → Outcome Err A
  api_inserted a workspace_id (ok _) = ok a
  api_inserted a workspace_id (err e) =
      if is_fk_violation e
      then err (wrapped "workspace" workspace_id (sentinel not_found))
      else err (context "insert api" (as_err e))

  unfoldable pub key_inserted : A → String → Outcome PgError (Unit {0}) → Outcome Err A
  key_inserted k api_id (ok _) = ok k
  key_inserted k api_id (err e) =
      if is_fk_violation e
      then err (wrapped "api" api_id (sentinel not_found))
      else if is_unique_violation e
      then err (sentinel conflict)
      else err (context "insert key" (as_err e))

unfoldable pub revoked : Outcome PgError ℕ → Outcome Err (Unit {0})
revoked (ok _) = ok tt
revoked (err e) = err (missing_or "update key" e)

unfoldable pub touched : Outcome PgError ℕ → Outcome Err (Unit {0})
touched (ok n) = if nat_eq n 0 then err (sentinel not_found) else ok tt
touched (err e) = err (context "touch last_verified_at" (as_err e))

-- Why no row was decremented.
unfoldable pub not_decremented : Outcome PgError ℤ → Outcome Err ℤ
not_decremented (ok n) = if is_neg n then ok (negsuc 0) else err (sentinel depleted)
not_decremented (err e) = err (missing_or "select remaining" e)

unfoldable pub page_limit : ℤ → ℕ
page_limit (pos (suc n)) = suc n
page_limit _ = 50

-- The over-fetched row is cut off; `none` from the index is where Go panics.
unfoldable pub cut_page : ℕ → List Key → Outcome Err ListKeysResult
cut_page size out =
    if ltb size (length out)
    then elim (get_elem? out (size - 1)) [
      | none ↦ err (opaque "index out of range")
      | some k ↦ ok (record { keys = take size out; next_page_token = k.key_id })
    ]
    else ok (record { keys = out; next_page_token = "" })

abbrev pub keep : Key → Outcome Err (List Key) → Outcome Err (List Key)
keep k (ok ks) = ok (k ∷ ks)
keep k (err e) = err e

module _ (json : Json) where
  unfoldable pub workspace_found : Outcome PgError WorkspaceRow → Outcome Err Workspace
  workspace_found (ok r) = ok (workspace_of json r)
  workspace_found (err e) = err (missing_or "select workspace" e)

  unfoldable pub api_found : Outcome PgError ApiRow → Outcome Err Api
  api_found (ok r) = ok (api_of json r)
  api_found (err e) = err (missing_or "select api" e)

  unfoldable pub key_found : Outcome PgError KeyRow → Outcome Err Key
  unfolding key_of
  key_found (ok r) = key_of json r
  key_found (err e) = err (missing_or "select key" e)

  -- The loop over the rows; it stops at the first that cannot be read.
  unfoldable pub scan_rows : List (Outcome PgError KeyRow) → Outcome Err (List Key)
  scan_rows [] = ok []
  scan_rows (err e ∷ rows) = err (context "scan key" (as_err e))
  scan_rows (ok r ∷ rows) =
      let rest = scan_rows rows in elim (key_of json r) [ err e ↦ err e | ok k ↦ keep k rest ]

  abbrev pub iterated : Option PgError → ℕ → Outcome Err (List Key) → Outcome Err ListKeysResult
  iterated ended size (err e) = err e
  iterated none size (ok out) = cut_page size out
  iterated (some e) size (ok out) = err (context "iterate keys" (as_err e))

  unfoldable pub listed : ℕ → Outcome PgError ResultSet → Outcome Err ListKeysResult
  unfolding scan_rows cut_page
  listed size (err e) = err (context "select keys" (as_err e))
  listed size (ok rows) = iterated rows.ended size (scan_rows rows.scans)

module _ {D : Type 0} (json : Json) (pool : Pool D) where
  unfoldable pub create_workspace : Stamp → Workspace → Action D Err Workspace
  unfolding workspace_inserted
  create_workspace stamp w =
      respond (workspace_inserted w') (pool.insert_workspace (workspace_row json w'))
    where
      w' : Workspace
      w' = record w {
        workspace_id = new_id "ws" stamp;
        created_at = stamp.now;
        updated_at = stamp.now;
      }

  unfoldable pub get_workspace : String → Action D Err Workspace
  unfolding workspace_found
  get_workspace id = respond (workspace_found json) (pool.select_workspace id)

  unfoldable pub create_api : Stamp → Api → Action D Err Api
  unfolding api_inserted
  create_api stamp a = respond (api_inserted a' a'.workspace_id) (pool.insert_api (api_row json a'))
    where
      a' : Api
      a' = record a { api_id = new_id "api" stamp; created_at = stamp.now; updated_at = stamp.now }

  unfoldable pub get_api : String → Action D Err Api
  unfolding api_found
  get_api id = respond (api_found json) (pool.select_api id)

  unfoldable pub create_key : Stamp → Key → Action D Err Key
  unfolding key_inserted key_row
  create_key stamp k = respond (key_inserted k' k'.api_id) (pool.insert_key (key_row json k'))
    where
      k' : Key
      k' = record k { key_id = new_id "key" stamp; created_at = stamp.now; updated_at = stamp.now }

  unfoldable pub query_key : KeyFilter → Action D Err Key
  unfolding key_found
  query_key filter = respond (key_found json) (pool.select_key filter)

  unfoldable pub get_key_by_id : String → Action D Err Key
  unfolding query_key
  get_key_by_id id = query_key (by_id id)

  unfoldable pub get_key_by_hash : Bytes → Action D Err Key
  unfolding query_key
  get_key_by_hash hash = query_key (by_hash hash)

  unfoldable pub revoke_key : Stamp → String → Action D Err (Unit {0})
  unfolding revoked
  revoke_key stamp id = respond revoked (pool.update_enabled stamp.now id)

  unfoldable pub after_rehash : String → Outcome PgError (Unit {0}) → Action D Err Key
  unfolding get_key_by_id
  after_rehash id (ok _) d = get_key_by_id id d
  after_rehash id (err e) d =
      if is_unique_violation e
      then (err (sentinel conflict), d)
      else (err (context "update key hash" (as_err e)), d)

  unfoldable pub rotate_key : Stamp → String → Bytes → Action D Err Key
  unfolding after_rehash
  rotate_key stamp id new_hash d =
      let (r, d') = pool.update_hash new_hash stamp.now id d in after_rehash id r d'

  unfoldable pub list_keys : ListKeysOpts → Action D Err ListKeysResult
  unfolding listed page_limit
  list_keys opts =
      let size = page_limit opts.page_size in
      respond (listed json size)
        (pool.select_page opts.api_id opts.owner_principal_id opts.page_token (size + 1))

  unfoldable pub touch_last_verified : String → Time → Action D Err (Unit {0})
  unfolding touched
  touch_last_verified id at = respond touched (pool.update_last_verified at id)

  unfoldable pub after_decrement : String → Outcome PgError ℤ → Action D Err ℤ
  unfolding not_decremented
  after_decrement id (ok n) d = (ok n, d)
  after_decrement id (err no_rows) d = respond not_decremented (pool.select_remaining id) d
  after_decrement id (err (violation code)) d =
      (err (context "decrement remaining" (as_err (violation code))), d)
  after_decrement id (err (other message)) d =
      (err (context "decrement remaining" (as_err (other message))), d)

  unfoldable pub decrement_remaining_uses : Stamp → String → Action D Err ℤ
  unfolding after_decrement
  decrement_remaining_uses stamp id d =
      let (r, d') = pool.update_remaining stamp.now id d in after_decrement id r d'
