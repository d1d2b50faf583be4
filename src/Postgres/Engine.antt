-- ===== src/Postgres/Engine.antt =====
-- What the Postgres driver relies on: the documented behaviour of the statements that it sends, over
-- the tables of migrations/0001_init.up.sql with their PRIMARY KEY, UNIQUE and REFERENCES
-- constraints, while the connection works. A statement with a text or a row that the database cannot
-- hold is refused, and nothing is assumed of it.
use keychain.Base.{
  String, String-Comparable, Bytes, ◌≡◌, ◌≢◌, ◌⊎◌, true, false, Bool, Option, none, some, List,
  Outcome, ok, err,
}
use keychain.Base.Int.{is_pos, pred}
use keychain.Store.{Time, LimitRef}
use keychain.Base.Map.{update}
use keychain.Postgres.Codec.{Json, WorkspaceRow, ApiRow, KeyRow}
use keychain.Postgres.Sql.{Pool, PgError, no_rows, violation, by_id, by_hash}

-- What a TIMESTAMPTZ column keeps of an instant, and a JSONB column of a text; and which texts and
-- rows the database can hold: Postgres refuses, for instance, the character NUL in a text.
pub record Columns : Type 0 where
  pub timestamptz : Time → Time
  pub jsonb : Bytes → Bytes
  pub holds_text : String → Bool
  pub holds_workspace : WorkspaceRow → Bool
  pub holds_api : ApiRow → Bool
  pub holds_key : KeyRow → Bool

pub record Tables : Type 0 where
  pub workspaces : String → Option WorkspaceRow
  pub apis : String → Option ApiRow
  pub keys : String → Option KeyRow

module _ (c : Columns) where
  abbrev pub null_timestamptz : Option Time → Option Time
  null_timestamptz none = none
  null_timestamptz (some t) = some (c.timestamptz t)

  abbrev pub stored_workspace : WorkspaceRow → WorkspaceRow
  stored_workspace r = record r {
    created_at = c.timestamptz r.created_at;
    updated_at = c.timestamptz r.updated_at;
    metadata = c.jsonb r.metadata;
  }

  abbrev pub stored_api : ApiRow → ApiRow
  stored_api r = record r {
    created_at = c.timestamptz r.created_at;
    updated_at = c.timestamptz r.updated_at;
    metadata = c.jsonb r.metadata;
  }

  abbrev pub stored_key : KeyRow → KeyRow
  stored_key r = record r {
    limit_refs = c.jsonb r.limit_refs;
    expires_at = null_timestamptz r.expires_at;
    created_at = c.timestamptz r.created_at;
    updated_at = c.timestamptz r.updated_at;
    last_verified_at = null_timestamptz r.last_verified_at;
    metadata = c.jsonb r.metadata;
  }

abbrev pub with_workspace_row : WorkspaceRow → Tables → Tables
with_workspace_row r t = record t { workspaces = update r.workspace_id r t.workspaces }

abbrev pub with_api_row : ApiRow → Tables → Tables
with_api_row r t = record t { apis = update r.api_id r t.apis }

abbrev pub with_key_row : String → KeyRow → Tables → Tables
with_key_row id r t = record t { keys = update id r t.keys }

-- No row of `keys` has the hash, but that of `id`.
abbrev pub Others : Tables → String → Bytes → Type 0
Others t id h = (j : String) (r : KeyRow) → t.keys j ≡ some r → id ≢ j → r.key_hash ≢ h

abbrev pub NoRow : Tables → Bytes → Type 0
NoRow t h = (j : String) (r : KeyRow) → t.keys j ≡ some r → r.key_hash ≢ h

-- The row of a query by a key, or that there is none.
abbrev pub fetched : {A : Type 0} → Option A → Outcome PgError A
fetched none = err no_rows
fetched (some r) = ok r

abbrev pub foreign_key : PgError
foreign_key = violation "23503"

abbrev pub unique : PgError
unique = violation "23505"

module _ {D : Type 0} (tables : D → Tables) (Sound : D → Type 0) where
  -- The statement returned `a`, and left the tables `t`.
  pub record Done {A : Type 0} (r : Outcome PgError A × D) (a : A) (t : Tables) : Type 0 where
    pub result : r.0 ≡ ok a
    pub sound : Sound r.1
    pub after : tables r.1 ≡ t

  pub record Engine (c : Columns) (pool : Pool D) : Type 0 where
    pub workspace_text :
        (d : D)
        → Sound d
        → (id : String) (r : WorkspaceRow) → (tables d).workspaces id ≡ some r
        → c.holds_text id ≡ true
    pub api_text :
        (d : D)
        → Sound d
        → (id : String) (r : ApiRow) → (tables d).apis id ≡ some r
        → c.holds_text id ≡ true
    pub key_text :
        (d : D)
        → Sound d
        → (id : String) (r : KeyRow) → (tables d).keys id ≡ some r
        → c.holds_text id ≡ true
    pub workspace_key :
        (d : D)
        → Sound d
        → (id : String) (r : WorkspaceRow) → (tables d).workspaces id ≡ some r
        → r.workspace_id ≡ id
    pub api_key :
        (d : D) → Sound d → (id : String) (r : ApiRow) → (tables d).apis id ≡ some r → r.api_id ≡ id
    pub key_key :
        (d : D) → Sound d → (id : String) (r : KeyRow) → (tables d).keys id ≡ some r → r.key_id ≡ id
    pub hash_unique :
        (d : D)
        → Sound d
        → (i j : String) (r s : KeyRow) → (tables d).keys i ≡ some r
        → (tables d).keys j ≡ some s
        → r.key_hash ≡ s.key_hash
        → i ≡ j
    pub api_references :
        (d : D)
        → Sound d
        → (id : String) (r : ApiRow) → (tables d).apis id ≡ some r
        → (w : WorkspaceRow) × ((tables d).workspaces r.workspace_id ≡ some w)
    pub select_workspace :
        (d : D)
        → Sound d
        → (id : String) → c.holds_text id ≡ true
        → pool.select_workspace id d ≡ (fetched ((tables d).workspaces id), d)
    pub select_api :
        (d : D)
        → Sound d
        → (id : String) → c.holds_text id ≡ true
        → pool.select_api id d ≡ (fetched ((tables d).apis id), d)
    pub select_by_id :
        (d : D)
        → Sound d
        → (id : String) → c.holds_text id ≡ true
        → pool.select_key (by_id id) d ≡ (fetched ((tables d).keys id), d)
    pub select_by_hash :
        (d : D)
        → Sound d
        → (h : Bytes)
        → ((id : String) × (r : KeyRow) × ((tables d).keys id ≡ some r)
            × (r.key_hash ≡ h)
            × (pool.select_key (by_hash h) d ≡ (ok r, d)))
          ⊎ (NoRow (tables d) h × (pool.select_key (by_hash h) d ≡ (err no_rows, d)))
    pub insert_workspace :
        (d : D)
        → Sound d
        → (r : WorkspaceRow) → (tables d).workspaces r.workspace_id ≡ none
        → c.holds_workspace r ≡ true
        → Done (pool.insert_workspace r d) tt (with_workspace_row (stored_workspace c r) (tables d))
    pub insert_api :
        (d : D)
        → Sound d
        → (r : ApiRow) (w : WorkspaceRow) → (tables d).workspaces r.workspace_id ≡ some w
        → (tables d).apis r.api_id ≡ none
        → c.holds_api r ≡ true
        → Done (pool.insert_api r d) tt (with_api_row (stored_api c r) (tables d))
    pub insert_api_orphan :
        (d : D)
        → Sound d
        → (r : ApiRow) → (tables d).workspaces r.workspace_id ≡ none
        → (tables d).apis r.api_id ≡ none
        → c.holds_api r ≡ true
        → pool.insert_api r d ≡ (err foreign_key, d)
    pub insert_key :
        (d : D)
        → Sound d
        → (r : KeyRow) (a : ApiRow) (w : WorkspaceRow) → (tables d).apis r.api_id ≡ some a
        → (tables d).workspaces r.workspace_id ≡ some w
        → (tables d).keys r.key_id ≡ none
        → NoRow (tables d) r.key_hash
        → c.holds_key r ≡ true
        → Done (pool.insert_key r d) tt (with_key_row r.key_id (stored_key c r) (tables d))
    pub insert_key_orphan :
        (d : D)
        → Sound d
        → (r : KeyRow) → (tables d).apis r.api_id ≡ none
        → (tables d).keys r.key_id ≡ none
        → NoRow (tables d) r.key_hash
        → c.holds_key r ≡ true
        → pool.insert_key r d ≡ (err foreign_key, d)
    pub insert_key_taken :
        (d : D)
        → Sound d
        → (r : KeyRow) (j : String) (s : KeyRow) → (tables d).keys j ≡ some s
        → s.key_hash ≡ r.key_hash
        → c.holds_key r ≡ true
        → pool.insert_key r d ≡ (err unique, d)
    pub update_enabled :
        (d : D)
        → Sound d
        → (now : Time) (id : String) (r : KeyRow) → (tables d).keys id ≡ some r
        → Done (pool.update_enabled now id d) 1 (
            with_key_row id
              (record r { enabled = false; updated_at = c.timestamptz now })
              (tables d))
    pub update_enabled_none :
        (d : D)
        → Sound d
        → (now : Time) (id : String) → (tables d).keys id ≡ none
        → c.holds_text id ≡ true
        → pool.update_enabled now id d ≡ (err no_rows, d)
    pub update_hash :
        (d : D)
        → Sound d
        → (h : Bytes) (now : Time) (id : String) (r : KeyRow) → (tables d).keys id ≡ some r
        → Others (tables d) id h
        → Done
            (pool.update_hash h now id d)
            tt
            (with_key_row id (record r { key_hash = h; updated_at = c.timestamptz now }) (tables d))
    pub update_hash_taken :
        (d : D)
        → Sound d
        → (h : Bytes) (now : Time) (id : String) (r : KeyRow) (j : String) (s : KeyRow)
        → (tables d).keys id ≡ some r
        → (tables d).keys j ≡ some s
        → id ≢ j
        → s.key_hash ≡ h
        → pool.update_hash h now id d ≡ (err unique, d)
    pub update_hash_none :
        (d : D)
        → Sound d
        → (h : Bytes) (now : Time) (id : String) → (tables d).keys id ≡ none
        → c.holds_text id ≡ true
        → pool.update_hash h now id d ≡ (ok tt, d)
    pub update_last_verified :
        (d : D)
        → Sound d
        → (at : Time) (id : String) (r : KeyRow) → (tables d).keys id ≡ some r
        → Done
            (pool.update_last_verified at id d)
            1
            (with_key_row id (record r { last_verified_at = some (c.timestamptz at) }) (tables d))
    pub update_last_verified_none :
        (d : D)
        → Sound d
        → (at : Time) (id : String) → (tables d).keys id ≡ none
        → c.holds_text id ≡ true
        → pool.update_last_verified at id d ≡ (ok 0, d)
    pub update_remaining :
        (d : D)
        → Sound d
        → (now : Time) (id : String) (r : KeyRow) → (tables d).keys id ≡ some r
        → is_pos r.remaining_uses ≡ true
        → Done (pool.update_remaining now id d) (pred r.remaining_uses) (
            with_key_row id
              (record r { remaining_uses = pred r.remaining_uses; updated_at = c.timestamptz now })
              (tables d))
    pub update_remaining_spent :
        (d : D)
        → Sound d
        → (now : Time) (id : String) (r : KeyRow) → (tables d).keys id ≡ some r
        → is_pos r.remaining_uses ≡ false
        → pool.update_remaining now id d ≡ (err no_rows, d)
    pub update_remaining_none :
        (d : D)
        → Sound d
        → (now : Time) (id : String) → (tables d).keys id ≡ none
        → c.holds_text id ≡ true
        → pool.update_remaining now id d ≡ (err no_rows, d)
    pub select_remaining :
        (d : D)
        → Sound d
        → (id : String) (r : KeyRow) → (tables d).keys id ≡ some r
        → pool.select_remaining id d ≡ (ok r.remaining_uses, d)
    pub select_remaining_none :
        (d : D)
        → Sound d
        → (id : String) → (tables d).keys id ≡ none
        → c.holds_text id ≡ true
        → pool.select_remaining id d ≡ (err no_rows, d)

-- What is read back of the limit references is what was written.
pub record KeepsRefs (json : Json) (c : Columns) : Type 0 where
  pub refs : (rs : List LimitRef) → json.unmarshal_refs (c.jsonb (json.marshal_refs rs)) ≡ ok rs
