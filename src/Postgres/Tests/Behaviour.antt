-- ===== src/Postgres/Tests/Behaviour.antt =====
-- The three tables behave as `Engine` says.
use keychain.Base.{
  String, String-Comparable, Bytes, Bytes-Comparable, ◌≡◌, ◌⊎◌, inl, inr, refl, sym, ap, ◌∙◌, none,
  some, Outcome, ok, err, ◌==◌, arith, Option-cases, Bool-cases, eq_iff,
}
use keychain.Base.Map.{Map, get, put, delete, get-put, get-empty, get-put-update, get-put-some}
use keychain.Store.{Time}
use keychain.Memory.Index.{
  Indexed, Indexed-insert, Indexed-update, Indexed-rehash, Indexed-empty, free_of_others,
  taken_of_other,
}
use keychain.Postgres.Codec.{WorkspaceRow, ApiRow, KeyRow}
use keychain.Postgres.Sql.{PgError, no_rows, by_hash}
use keychain.Postgres.Engine.{
  stored_workspace, stored_api, stored_key, Engine, Done, NoRow, Others, with_key_row, with_api_row,
  with_workspace_row,
}
use keychain.Postgres.Tests.Encoding.{columns}
use keychain.Postgres.Tests.Database.{
  Database, tables, row_hash, Sound, set_row, insert_workspace, insert_api, insert_key, select_key,
  set_where, update_hash, update_remaining, pool, empty,
}

pub empty-Sound : Sound empty
empty-Sound = record {
  workspace = λ id w e. cc (get-empty {V = WorkspaceRow} id);
  api = λ id a e. cc (get-empty {V = ApiRow} id);
  key = λ id k e. cc (get-empty {V = KeyRow} id);
  parent = λ id a e. cc (get-empty {V = ApiRow} id);
  indexed = Indexed-empty row_hash;
}

module _ (d : Database) (s : Sound d) where
  set_row-Sound :
      (id : String) (r : KeyRow) (index : Map Bytes String)
      → r.key_id ≡ id
      → Indexed row_hash (put id r d.keys) index
      → Sound (record (set_row id r d) { hash_index = index })
  set_row-Sound id r index label x = record {
    workspace = s.workspace;
    api = s.api;
    key = λ j q e. ground (arith, get-put id j r d.keys, eq_iff id j, s.key j q);
    parent = s.parent;
    indexed = x;
  }

  -- A row is changed in place.
  set_row-Done :
      {A : Type 0} (id : String) (r r' : KeyRow) (a : A)
      → get id d.keys ≡ some r
      → r'.key_id ≡ r.key_id
      → r'.key_hash ≡ r.key_hash
      → Done tables Sound (ok a, set_row id r' d) a (with_key_row id r' (tables d))
  set_row-Done id r r' a e label same = record {
    result = refl;
    sound =
        set_row-Sound id r' d.hash_index (label ∙ s.key id r e)
          (Indexed-update d.keys d.hash_index s.indexed id r r' e same);
    after = λ i. record (tables d) { keys = get-put-update id r' d.keys i };
  }

  -- A hash that no row has is not in the index.
  unindexed : (h : Bytes) → NoRow (tables d) h → get h d.hash_index ≡ none
  unindexed h free = elim (Option-cases (get h d.hash_index)) [
    | inl e ↦ e
    | inr (id, e) ↦ let (r, here, same) = s.indexed.backward h id e in absurd (free id r here same)
  ]

  insert_key-Done :
      (r : KeyRow) (a : ApiRow) (w : WorkspaceRow)
      → get r.api_id d.apis ≡ some a
      → get r.workspace_id d.workspaces ≡ some w
      → get r.key_id d.keys ≡ none
      → NoRow (tables d) r.key_hash
      → Done tables Sound
          (insert_key r d)
          tt
          (with_key_row r.key_id (stored_key columns r) (tables d))
  insert_key-Done r a w ea ew fresh free =
      rw (unindexed r.key_hash free, insert_key, fresh, ea, ew)
        (record {
          result = refl;
          sound =
              set_row-Sound r.key_id (stored_key columns r) (put r.key_hash r.key_id d.hash_index)
                refl
                (Indexed-insert d.keys d.hash_index s.indexed r.key_id (stored_key columns r) fresh
                  (unindexed r.key_hash free));
          after = λ i. record (tables d) {
            keys = get-put-update r.key_id (stored_key columns r) d.keys i;
          };
        })

  update_hash-Done :
      (h : Bytes) (now : Time) (id : String) (r : KeyRow)
      → get id d.keys ≡ some r
      → Others (tables d) id h
      → Done tables Sound (update_hash h now id d) tt (
          with_key_row id
            (record r { key_hash = h; updated_at = columns.timestamptz now })
            (tables d))
  update_hash-Done h now id r e free =
      let r' = record r { key_hash = h; updated_at = columns.timestamptz now } in
      let untaken = free_of_others d.keys d.hash_index s.indexed id h free in
      rw (e, update_hash, untaken)
        (record {
          result = refl;
          sound =
              set_row-Sound id r' (put h id (delete r.key_hash d.hash_index)) (s.key id r e)
                (Indexed-rehash d.keys d.hash_index s.indexed id r r' e untaken);
          after = λ i. record (tables d) { keys = get-put-update id r' d.keys i };
        })

  insert_workspace-Done :
      (r : WorkspaceRow)
      → get r.workspace_id d.workspaces ≡ none
      → Done tables Sound
          (insert_workspace r d)
          tt
          (with_workspace_row (stored_workspace columns r) (tables d))
  insert_workspace-Done r fresh =
      rw (fresh, insert_workspace)
        (record {
          result = refl;
          sound = record {
            workspace = λ id q e. ground (
              arith,
              get-put r.workspace_id id (stored_workspace columns r) d.workspaces,
              eq_iff r.workspace_id id,
              s.workspace id q,
            );
            api = s.api;
            key = s.key;
            parent = λ id q e.
                let (u, eu) = s.parent id q e in
                get-put-some r.workspace_id q.workspace_id u (stored_workspace columns r)
                  d.workspaces eu;
            indexed = s.indexed;
          };
          after = λ i. record (tables d) {
            workspaces = get-put-update r.workspace_id (stored_workspace columns r) d.workspaces i;
          };
        })

  insert_api-Done :
      (r : ApiRow) (w : WorkspaceRow)
      → get r.workspace_id d.workspaces ≡ some w
      → get r.api_id d.apis ≡ none
      → Done tables Sound (insert_api r d) tt (with_api_row (stored_api columns r) (tables d))
  insert_api-Done r w ew fresh =
      rw (fresh, insert_api, ew)
        (record {
          result = refl;
          sound = record {
            workspace = s.workspace;
            api = λ id q e. ground (
              arith,
              get-put r.api_id id (stored_api columns r) d.apis,
              eq_iff r.api_id id,
              s.api id q,
            );
            key = s.key;
            parent = λ id q e. elim (Bool-cases (r.api_id == id)) [
              | inl hit ↦
                  let same = rw (get-put r.api_id id (stored_api columns r) d.apis, hit) at e in
                  (w, cc (same, ew))
              | inr miss ↦
                  s.parent id q (rw (get-put r.api_id id (stored_api columns r) d.apis, miss) at e)
            ];
            indexed = s.indexed;
          };
          after = λ i. record (tables d) {
            apis = get-put-update r.api_id (stored_api columns r) d.apis i;
          };
        })

  -- An UPDATE of one row that finds it.
  set_where-Done :
      {A : Type 0} (g : KeyRow → KeyRow) (f : KeyRow → A) (miss : Outcome PgError A) (id : String)
      (r : KeyRow)
      → get id d.keys ≡ some r
      → (g r).key_id ≡ r.key_id
      → (g r).key_hash ≡ r.key_hash
      → Done tables Sound (set_where g f miss id d) (f r) (with_key_row id (g r) (tables d))
  set_where-Done g f miss id r e label same =
      rw (e, set_where) (set_row-Done id r (g r) (f r) e label same)

  select_by_hash-cases :
      (h : Bytes)
      → ((id : String) × (r : KeyRow) × (get id d.keys ≡ some r)
          × (r.key_hash ≡ h)
          × (select_key (by_hash h) d ≡ (ok r, d)))
        ⊎ (NoRow (tables d) h × (select_key (by_hash h) d ≡ (err no_rows, d)))
  select_by_hash-cases h = elim (Option-cases (get h d.hash_index)) [
    | inl e ↦ inr (
      λ j r here same. cc (ap (λ x. get x d.hash_index) (sym same) ∙ s.indexed.forward j r here, e),
      rw (e, select_key) refl,
    )
    | inr (id, e) ↦
        let (r, here, same) = s.indexed.backward h id e in
        inl (id, r, here, same, rw (e, select_key, here) refl)
  ]

pub engine : Engine tables Sound columns pool
engine = record {
  workspace_key = λ d s. s.workspace;
  api_key = λ d s. s.api;
  key_key = λ d s. s.key;
  hash_unique =
      λ d s i j r q e e' same. cc (s.indexed.forward i r e, s.indexed.forward j q e', same);
  api_references = λ d s. s.parent;
  workspace_text = λ d s id r e. refl;
  api_text = λ d s id r e. refl;
  key_text = λ d s id r e. refl;
  select_workspace = λ d s id h. refl;
  select_api = λ d s id h. refl;
  select_by_id = λ d s id h. refl;
  select_by_hash = select_by_hash-cases;
  insert_workspace = λ d s r fresh h. insert_workspace-Done d s r fresh;
  insert_api = λ d s r w e fresh h. insert_api-Done d s r w e fresh;
  insert_api_orphan = λ d s r orphan fresh h. rw (fresh, insert_api, orphan) refl;
  insert_key = λ d s r a w ea ew fresh free h. insert_key-Done d s r a w ea ew fresh free;
  insert_key_orphan = λ d s r orphan fresh free h.
      rw (unindexed d s r.key_hash free, insert_key, fresh, orphan) refl;
  insert_key_taken = λ d s r j q here same h.
      rw (ap (λ x. get x d.hash_index) (sym same) ∙ s.indexed.forward j q here, insert_key) refl;
  update_enabled = λ d s now id r e. set_where-Done d s _ _ _ id r e refl refl;
  update_enabled_none = λ d s now id e h. rw (e, set_where) refl;
  update_hash = update_hash-Done;
  update_hash_taken = λ d s h now id r j q e e' apart same.
      rw (e, update_hash, taken_of_other d.keys d.hash_index s.indexed id h j q e' apart same) refl;
  update_hash_none = λ d s h now id e held. rw (e, update_hash) refl;
  update_last_verified = λ d s at id r e. set_where-Done d s _ _ _ id r e refl refl;
  update_last_verified_none = λ d s at id e h. rw (e, set_where) refl;
  update_remaining = λ d s now id r e positive.
      rw (e, update_remaining, positive) (set_row-Done d s id r _ _ e refl refl);
  update_remaining_spent = λ d s now id r e spent. rw (e, update_remaining, spent) refl;
  update_remaining_none = λ d s now id e h. rw (e, update_remaining) refl;
  select_remaining = λ d s id r e. rw e refl;
  select_remaining_none = λ d s id e h. rw e refl;
}
