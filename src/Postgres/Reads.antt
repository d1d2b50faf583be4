-- ===== src/Postgres/Reads.antt =====
-- The reads of postgres.go, over an engine with sound tables.
use keychain.Base.{
  String, String-Comparable, Bytes, ◌≡◌, ◌⊎◌, true, inl, inr, refl, sym, ap, ◌∙◌, none, some, List,
  ok, err, Option-cases,
}
use keychain.Store.{sentinel, not_found, Key, LimitRef}
use keychain.Store.Contract.{found, HashFree, HashUnused}
use keychain.Postgres.Codec.{Json, KeyRow, key_of, key_with, workspace_of, api_of}
use keychain.Postgres.Sql.{Pool}
use keychain.Postgres.Engine.{Columns, Tables, Engine, NoRow, Others}
use keychain.Postgres.View.{map_row, read_key, view_tables, read_key-some}
use keychain.Postgres.{get_workspace, get_api, get_key_by_id, get_key_by_hash}

-- Every row of `keys` has limit references that parse.
abbrev pub Parsed : Json → Tables → Type 0
Parsed json t =
    (id : String) (r : KeyRow)
    → t.keys id ≡ some r
    → (refs : List LimitRef) × (json.unmarshal_refs r.limit_refs ≡ ok refs)

module _ (json : Json) (c : Columns) where
  pub key_of-parsed :
      (r : KeyRow) (refs : List LimitRef)
      → json.unmarshal_refs r.limit_refs ≡ ok refs
      → key_of json r ≡ ok (key_with json r refs)
  unfolding key_of
  key_of-parsed r refs e = rw (e, key_of) refl

  pub read_key-row :
      (t : Tables) (id : String) (r : KeyRow) (refs : List LimitRef)
      → t.keys id ≡ some r
      → json.unmarshal_refs r.limit_refs ≡ ok refs
      → read_key json c (t.keys id) ≡ some (key_with json r refs)
  read_key-row t id r refs e p = rw (e, key_of-parsed r refs p) refl

  pub key_with-hash :
      (r : KeyRow) (refs : List LimitRef) → (key_with json r refs).key_hash ≡ r.key_hash
  unfolding key_with
  key_with-hash r refs = refl

  pub key_with-id : (r : KeyRow) (refs : List LimitRef) → (key_with json r refs).key_id ≡ r.key_id
  unfolding key_with
  key_with-id r refs = refl

  pub read_key-none :
      (t : Tables) (id : String)
      → Parsed json t
      → read_key json c (t.keys id) ≡ none
      → t.keys id ≡ none
  read_key-none t id parsed e = elim (Option-cases (t.keys id)) [
    | inl h ↦ h
    | inr (r, h) ↦ let (refs, p) = parsed id r h in cc (e, read_key-row t id r refs h p)
  ]

  -- No other row has a hash that no other key has.
  pub free-Others :
      (t : Tables) (id : String) (h : Bytes)
      → HashFree (view_tables json c t) id h
      → Parsed json t
      → Others t id h
  free-Others t id h free parsed j r e apart same =
      let (refs, p) = parsed j r e in
      free j (key_with json r refs) (read_key-row t j r refs e p) apart
        (key_with-hash r refs ∙ same)

  -- No key of the view has the hash exactly when no row has it.
  pub unused-NoRow :
      (t : Tables) (h : Bytes) → HashUnused (view_tables json c t) h → Parsed json t → NoRow t h
  unused-NoRow t h unused parsed j r e =
      let (refs, p) = parsed j r e in
      λ same.
        unused j (key_with json r refs) (read_key-row t j r refs e p) (key_with-hash r refs ∙ same)

  pub NoRow-unused : (t : Tables) (h : Bytes) → NoRow t h → HashUnused (view_tables json c t) h
  NoRow-unused t h free j k e =
      let (r, er, refs, p, q) = read_key-some json c (t.keys j) k e in
      λ same. free j r er (sym (key_with-hash r refs) ∙ ap (λ k. k.key_hash) q ∙ same)

module _ {D : Type 0} {tables : D → Tables} {Sound : D → Type 0} (json : Json) {c : Columns}
    {pool : Pool D} (law : Engine tables Sound c pool) (d : D) (s : Sound d) where
  pub get_workspace-found :
      (id : String)
      → c.holds_text id ≡ true
      → get_workspace json pool id d
        ≡ (found (map_row (workspace_of json) ((tables d).workspaces id)), d)
  unfolding get_workspace
  get_workspace-found id h = elim (Option-cases ((tables d).workspaces id)) [
    | inl e ↦ rw (law.select_workspace d s id h, e) refl
    | inr (r, e) ↦ rw (law.select_workspace d s id h, e) refl
  ]

  pub get_api-found :
      (id : String)
      → c.holds_text id ≡ true
      → get_api json pool id d ≡ (found (map_row (api_of json) ((tables d).apis id)), d)
  unfolding get_api
  get_api-found id h = elim (Option-cases ((tables d).apis id)) [
    | inl e ↦ rw (law.select_api d s id h, e) refl
    | inr (r, e) ↦ rw (law.select_api d s id h, e) refl
  ]

  pub get_key_by_id-found :
      Parsed json (tables d)
      → (id : String) → c.holds_text id ≡ true
      → get_key_by_id json pool id d ≡ (found (read_key json c ((tables d).keys id)), d)
  unfolding get_key_by_id
  get_key_by_id-found parsed id h = elim (Option-cases ((tables d).keys id)) [
    | inl e ↦ rw (law.select_by_id d s id h, e) refl
    | inr (r, e) ↦
        let (refs, p) = parsed id r e in
        rw (law.select_by_id d s id h, e) (rw (key_of-parsed json c r refs p) refl)
  ]

  pub hash_cases :
      (h : Bytes)
      → Parsed json (tables d)
      → ((id : String) × (k : Key) × (read_key json c ((tables d).keys id) ≡ some k)
          × (k.key_hash ≡ h))
        ⊎ HashUnused (view_tables json c (tables d)) h
  hash_cases h parsed = elim (law.select_by_hash d s h) [
    | inl (id, r, e, same, _) ↦
        let (refs, p) = parsed id r e in
        inl (
          id,
          key_with json r refs,
          read_key-row json c (tables d) id r refs e p,
          key_with-hash json c r refs ∙ same,
        )
    | inr (free, _) ↦ inr (NoRow-unused json c (tables d) h free)
  ]

  same_hash-row :
      (i j : String) (r r' : KeyRow)
      → (tables d).keys i ≡ some r
      → (tables d).keys j ≡ some r'
      → r.key_hash ≡ r'.key_hash
      → r' ≡ r
  same_hash-row i j r r' e e' same = let ij = law.hash_unique d s i j r r' e e' same in cc

  pub get_key_by_hash_hit :
      (id : String) (k : Key)
      → read_key json c ((tables d).keys id) ≡ some k
      → get_key_by_hash json pool k.key_hash d ≡ (ok k, d)
  unfolding get_key_by_hash
  get_key_by_hash_hit id k e =
      let (r, er, refs, p, q) = read_key-some json c ((tables d).keys id) k e in
      let same = sym (key_with-hash json c r refs) ∙ ap (λ k. k.key_hash) q in
      elim (law.select_by_hash d s k.key_hash) [
        | inl (j, r', ej, ej', sel) ↦
            let row = same_hash-row id j r r' er ej (same ∙ sym ej') in
            rw sel (rw (row, key_of-parsed json c r refs p, q) refl)
        | inr (free, _) ↦ absurd (free id r er same)
      ]

  pub get_key_by_hash_miss :
      Parsed json (tables d)
      → (h : Bytes) → HashUnused (view_tables json c (tables d)) h
      → get_key_by_hash json pool h d ≡ (err (sentinel not_found), d)
  unfolding get_key_by_hash
  get_key_by_hash_miss parsed h unused = elim (law.select_by_hash d s h) [
    | inl (id, r, e, same, _) ↦ absurd (unused-NoRow json c (tables d) h unused parsed id r e same)
    | inr (_, sel) ↦ rw sel refl
  ]
