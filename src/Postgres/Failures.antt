-- ===== src/Postgres/Failures.antt =====
-- The calls of postgres.go that change nothing: what the driver makes of a row that is not there and
-- of a broken constraint.
use keychain.Base.{
  String, String-Comparable, Bytes, ◌≡◌, ◌≢◌, refl, sym, ap, ◌∙◌, true, false, none, some, ok, err,
}
use keychain.Base.Int.{
  negsuc, is_neg, is_pos, is_zero, is_neg-nonpos, is_zero-nonpos, is_zero-nonneg,
}
use keychain.Store.{Time, sentinel, wrapped, not_found, conflict, depleted, Key, Api, Stamp, new_id}
use keychain.Store.Contract.{HashUnused, stamped_key, stamped_api}
use keychain.Postgres.Codec.{Json, key_with, key_row, api_row, workspace_of, api_of}
use keychain.Postgres.Sql.{Pool}
use keychain.Postgres.Sql
use keychain.Postgres.Engine.{Columns, Tables, Engine}
use keychain.Postgres.View.{read_key-some, map_row-none}
use keychain.Postgres.Reads.{key_with-hash, read_key-none, unused-NoRow}
use keychain.Postgres.Writes.{Valid, view}
use keychain.Postgres.{
  create_api, create_key, revoke_key, rotate_key, touch_last_verified, decrement_remaining_uses,
}
use keychain.Postgres

module _ {D : Type 0} (tables : D → Tables) (Sound : D → Type 0) (json : Json) (c : Columns)
    {pool : Pool D} (law : Engine tables Sound c pool) (d : D)
    (v : Valid tables Sound json c d) where
  pub create_api_orphan :
      (t : Stamp) (a : Api)
      → (view tables Sound json c d).workspaces a.workspace_id ≡ none
      → (view tables Sound json c d).apis (new_id "api" t) ≡ none
      → c.holds_api (api_row json (stamped_api t a)) ≡ true
      → create_api json pool t a d
        ≡ (err (wrapped "workspace" a.workspace_id (sentinel not_found)), d)
  unfolding create_api Sql.is_fk_violation
  create_api_orphan t a orphan fresh h =
      rw
        (law.insert_api_orphan d v.0 (api_row json (stamped_api t a))
          (map_row-none (workspace_of json) ((tables d).workspaces a.workspace_id) orphan)
          (map_row-none (api_of json) ((tables d).apis (new_id "api" t)) fresh) h)
        refl

  pub create_key_orphan :
      (t : Stamp) (k : Key)
      → (view tables Sound json c d).apis k.api_id ≡ none
      → (view tables Sound json c d).keys (new_id "key" t) ≡ none
      → HashUnused (view tables Sound json c d) k.key_hash
      → c.holds_key (key_row json (stamped_key t k)) ≡ true
      → create_key json pool t k d ≡ (err (wrapped "api" k.api_id (sentinel not_found)), d)
  unfolding create_key key_row Sql.is_fk_violation Sql.is_unique_violation
  create_key_orphan t k orphan fresh unused h =
      rw
        (law.insert_key_orphan d v.0 (key_row json (stamped_key t k))
          (map_row-none (api_of json) ((tables d).apis k.api_id) orphan)
          (read_key-none json c (tables d) (new_id "key" t) v.1 fresh)
          (unused-NoRow json c (tables d) k.key_hash unused v.1) h)
        refl

  pub create_key_conflict :
      (t : Stamp) (k : Key) (j : String) (l : Key)
      → (view tables Sound json c d).keys j ≡ some l
      → l.key_hash ≡ k.key_hash
      → c.holds_key (key_row json (stamped_key t k)) ≡ true
      → create_key json pool t k d ≡ (err (sentinel conflict), d)
  unfolding create_key key_row Sql.is_fk_violation Sql.is_unique_violation
  create_key_conflict t k j l e same h =
      let (r, er, refs, p, q) = read_key-some json c ((tables d).keys j) l e in
      rw
        (law.insert_key_taken d v.0 (key_row json (stamped_key t k)) j r er
          (sym (key_with-hash json c r refs) ∙ ap (λ k. k.key_hash) q ∙ same) h)
        refl

  absent : (id : String) → (view tables Sound json c d).keys id ≡ none → (tables d).keys id ≡ none
  absent id e = read_key-none json c (tables d) id v.1 e

  pub touch_missing :
      (id : String) (at : Time)
      → (view tables Sound json c d).keys id ≡ none
      → c.holds_text id ≡ true
      → touch_last_verified json pool id at d ≡ (err (sentinel not_found), d)
  unfolding touch_last_verified
  touch_missing id at e h = rw (law.update_last_verified_none d v.0 at id (absent id e) h) refl

  module _ (t : Stamp) (id : String) where
    module _ (e : (view tables Sound json c d).keys id ≡ none) (held : c.holds_text id ≡ true) where
      pub revoke_key_missing : revoke_key json pool t id d ≡ (err (sentinel not_found), d)
      unfolding revoke_key
      revoke_key_missing = rw (law.update_enabled_none d v.0 t.now id (absent id e) held) refl

      pub rotate_key_missing :
          (h : Bytes) → rotate_key json pool t id h d ≡ (err (sentinel not_found), d)
      unfolding rotate_key Postgres.after_rehash Postgres.get_key_by_id
      rotate_key_missing h =
          rw (law.update_hash_none d v.0 h t.now id (absent id e) held)
            (rw (law.select_by_id d v.0 id held, absent id e) refl)

      pub decrement_missing :
          decrement_remaining_uses json pool t id d ≡ (err (sentinel not_found), d)
      unfolding decrement_remaining_uses Postgres.after_decrement
      decrement_missing =
          rw (law.update_remaining_none d v.0 t.now id (absent id e) held)
            (rw (law.select_remaining_none d v.0 id (absent id e) held) refl)

    pub rotate_key_conflict :
        (h : Bytes) (k : Key) (j : String) (l : Key)
        → (view tables Sound json c d).keys id ≡ some k
        → (view tables Sound json c d).keys j ≡ some l
        → id ≢ j
        → l.key_hash ≡ h
        → rotate_key json pool t id h d ≡ (err (sentinel conflict), d)
    unfolding rotate_key Postgres.after_rehash Sql.is_unique_violation
    rotate_key_conflict h k j l e e' apart same =
        let (r, er, _, _, _) = read_key-some json c ((tables d).keys id) k e in
        let (s, es, refs, p, q) = read_key-some json c ((tables d).keys j) l e' in
        rw
          (law.update_hash_taken d v.0 h t.now id r j s er es apart
            (sym (key_with-hash json c s refs) ∙ ap (λ k. k.key_hash) q ∙ same))
          refl

    module _ (k : Key) (e : (view tables Sound json c d).keys id ≡ some k) where
      -- What the second query of a decrement finds when the first changed no row.
      undecremented :
          is_pos k.remaining_uses ≡ false
          → decrement_remaining_uses json pool t id d
            ≡ (Postgres.not_decremented (ok k.remaining_uses), d)
      unfolding decrement_remaining_uses Postgres.after_decrement key_with
      undecremented spent =
          let (r, er, refs, p, q) = read_key-some json c ((tables d).keys id) k e in
          let same = ap (λ k. k.remaining_uses) q in
          rw (law.update_remaining_spent d v.0 t.now id r er (ap is_pos same ∙ spent)) (
            rw (law.select_remaining d v.0 id r er)
              (ap (λ n. (Postgres.not_decremented (ok n), d)) same))

      pub decrement_unlimited :
          is_neg k.remaining_uses ≡ true
          → decrement_remaining_uses json pool t id d ≡ (ok (negsuc 0), d)
      unfolding Postgres.not_decremented
      decrement_unlimited neg = undecremented (is_neg-nonpos k.remaining_uses neg) ∙ rw neg refl

      pub decrement_depleted :
          is_zero k.remaining_uses ≡ true
          → decrement_remaining_uses json pool t id d ≡ (err (sentinel depleted), d)
      unfolding Postgres.not_decremented
      decrement_depleted z =
          undecremented (is_zero-nonpos k.remaining_uses z)
          ∙ rw (is_zero-nonneg k.remaining_uses z) refl
