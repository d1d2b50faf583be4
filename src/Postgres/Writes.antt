-- ===== src/Postgres/Writes.antt =====
-- The writes of postgres.go, over an engine with sound tables: what they return and what they do to
-- the view.
use keychain.Base.{
  String, String-Comparable, Bytes, ◌≡◌, inl, inr, refl, sym, ap, subst, ◌∙◌, true, false, Option,
  none, some, List, Outcome, ok, Bool-cases, ◌==◌, equal_refl,
}
use keychain.Base.Int.{is_pos, pred}
use keychain.Store.{Time, Err, Key, Api, Workspace, LimitRef, Stamp, new_id}
use keychain.Base.Map.{update}
use keychain.Store.Contract.{
  View, found, HashFree, HashUnused, Returns, with_workspace, with_api, with_key, kept_workspace,
  kept_api, kept_key, stamped_workspace, stamped_api, stamped_key,
}
use keychain.Postgres.Codec.{
  Json, KeyRow, key_with, key_row, workspace_row, workspace_of, api_row, api_of,
}
use keychain.Postgres.Sql.{Pool, PgError}
use keychain.Postgres.Engine.{
  Columns, Tables, Engine, Done, with_key_row, KeepsRefs, stored_workspace, stored_api, stored_key,
}
use keychain.Postgres.View.{
  precision, view_tables, map_row-update, read_key-update, read_key-some, map_row-none,
  map_row-some, key_with-key_row,
}
use keychain.Postgres.Reads.{
  Parsed, key_of-parsed, read_key-none, unused-NoRow, free-Others, get_key_by_id-found,
}
use keychain.Postgres.{
  create_workspace, create_api, create_key, revoke_key, rotate_key, touch_last_verified,
  decrement_remaining_uses, respond,
}
use keychain.Postgres

found-update : (id : String) (k : Key) (f : String → Option Key) → found (update id k f id) ≡ ok k
found-update id k f = rw (equal_refl id)

module _ {D : Type 0} (tables : D → Tables) (Sound : D → Type 0) (json : Json) (c : Columns) where
  abbrev pub Valid : D → Type 0
  Valid d = Sound d × Parsed json (tables d)

  abbrev pub view : D → View
  view d = view_tables json c (tables d)

  Parsed-with_key_row :
      (t : Tables) (id : String) (r : KeyRow) (refs : List LimitRef)
      → Parsed json t
      → json.unmarshal_refs r.limit_refs ≡ ok refs
      → Parsed json (with_key_row id r t)
  Parsed-with_key_row t id r refs parsed p j s h = elim (Bool-cases (id == j)) [
    | inl hit ↦ (refs, cc (rw hit at h, p))
    | inr miss ↦ parsed j s (rw miss at h)
  ]

  -- What follows a statement keeps its effect, when it returns and changes nothing more.
  continued :
      {A B : Type 0} {m : Outcome PgError A × D} {a : A} {u : View}
      → Returns Valid view m a u
      → (f : Outcome PgError A → D → Outcome Err B × D) (b : B) → f (ok a) m.1 ≡ (ok b, m.1)
      → Returns Valid view (f m.0 m.1) b u
  continued {m} {u} ret f b e =
      subst (λ r. Returns Valid view r b u) (sym (ap (λ r. f r m.1) ret.result ∙ e))
        (record { result = refl; valid = ret.valid; after = ret.after })

  responded :
      {A B : Type 0} {m : Outcome PgError A × D} {a : A} {u : View}
      → Returns Valid view m a u
      → (f : Outcome PgError A → Outcome Err B) (b : B) → f (ok a) ≡ ok b
      → Returns Valid view (f m.0, m.1) b u
  responded {m} ret f b e = continued ret (λ r d. (f r, d)) b (ap (λ o. (o, m.1)) e)

  -- A statement that wrote the row of a key, whose references parse.
  written :
      {A : Type 0} {m : Outcome PgError A × D} {a : A} (d : D) (id : String) (r : KeyRow)
      (refs : List LimitRef) (k : Key)
      → Parsed json (tables d)
      → Done tables Sound m a (with_key_row id r (tables d))
      → json.unmarshal_refs r.limit_refs ≡ ok refs
      → key_with json r refs ≡ k
      → Returns Valid view m a (with_key id k (view d))
  written d id r refs k parsed done p q = record {
    result = done.result;
    valid = (
      done.sound,
      subst (Parsed json) (sym done.after) (Parsed-with_key_row (tables d) id r refs parsed p),
    );
    after = rw done.after (λ i. record (view d) {
      keys =
          read_key-update json c id r k (tables d).keys (key_of-parsed json c r refs p ∙ ap ok q) i;
    });
  }

  -- A statement that changes the row of a key that is there to `g r`, which reads as `u k`.
  rewritten :
      {A : Type 0} {m : Outcome PgError A × D} {a : A} (d : D) (id : String) (k : Key)
      (u : Key → Key) (g : KeyRow → KeyRow)
      → Parsed json (tables d)
      → (view d).keys id ≡ some k
      → ((r : KeyRow) → (g r).limit_refs ≡ r.limit_refs)
      → ((r : KeyRow) (refs : List LimitRef) → key_with json (g r) refs ≡ u (key_with json r refs))
      → ((r : KeyRow) (refs : List LimitRef)
          → (tables d).keys id ≡ some r
          → key_with json r refs ≡ k
          → Done tables Sound m a (with_key_row id (g r) (tables d)))
      → Returns Valid view m a (with_key id (u k) (view d))
  rewritten d id k u g parsed e same reads done =
      let (r, er, refs, p, q) = read_key-some json c ((tables d).keys id) k e in
      written d id (g r) refs (u k) parsed (done r refs er q) (ap json.unmarshal_refs (same r) ∙ p)
        (reads r refs ∙ ap u q)

  module _ {pool : Pool D} (law : Engine tables Sound c pool) (kept : KeepsRefs json c) (d : D)
      (v : Valid d) where
    pub create_workspace-Returns :
        (t : Stamp) (w : Workspace)
        → (view d).workspaces (new_id "ws" t) ≡ none
        → c.holds_workspace (workspace_row json (stamped_workspace t w)) ≡ true
        → Returns Valid view
            (create_workspace json pool t w d)
            (stamped_workspace t w)
            (with_workspace (kept_workspace (precision json c) (stamped_workspace t w)) (view d))
    unfolding create_workspace
    create_workspace-Returns t w fresh h =
        let done =
          law.insert_workspace d v.0 (workspace_row json (stamped_workspace t w))
            (map_row-none (workspace_of json) ((tables d).workspaces (new_id "ws" t)) fresh) h in
        record {
          result = rw done.result refl;
          valid = (done.sound, subst (Parsed json) (sym done.after) v.1);
          after = rw done.after (λ i. record (view d) {
            workspaces =
                map_row-update json c (workspace_of json) (new_id "ws" t)
                  (stored_workspace c (workspace_row json (stamped_workspace t w)))
                  (tables d).workspaces i;
          });
        }

    pub create_api-Returns :
        (t : Stamp) (a : Api) (w : Workspace)
        → (view d).workspaces a.workspace_id ≡ some w
        → (view d).apis (new_id "api" t) ≡ none
        → c.holds_api (api_row json (stamped_api t a)) ≡ true
        → Returns Valid view
            (create_api json pool t a d)
            (stamped_api t a)
            (with_api (kept_api (precision json c) (stamped_api t a)) (view d))
    unfolding create_api
    create_api-Returns t a w parent fresh h =
        let (r, e, _) =
          map_row-some (workspace_of json) ((tables d).workspaces a.workspace_id) w parent in
        let done =
          law.insert_api d v.0 (api_row json (stamped_api t a)) r e
            (map_row-none (api_of json) ((tables d).apis (new_id "api" t)) fresh) h in
        record {
          result = rw done.result refl;
          valid = (done.sound, subst (Parsed json) (sym done.after) v.1);
          after = rw done.after (λ i. record (view d) {
            apis =
                map_row-update json c (api_of json) (new_id "api" t)
                  (stored_api c (api_row json (stamped_api t a))) (tables d).apis i;
          });
        }

    pub create_key-Returns :
        (t : Stamp) (k : Key) (a : Api) (w : Workspace)
        → (view d).apis k.api_id ≡ some a
        → (view d).workspaces k.workspace_id ≡ some w
        → (view d).keys (new_id "key" t) ≡ none
        → HashUnused (view d) k.key_hash
        → c.holds_key (key_row json (stamped_key t k)) ≡ true
        → Returns Valid view
            (create_key json pool t k d)
            (stamped_key t k)
            (with_key (new_id "key" t) (kept_key (precision json c) (stamped_key t k)) (view d))
    unfolding create_key key_with key_row
    create_key-Returns t k a w parent owner fresh unused h =
        let (ra, ea, _) = map_row-some (api_of json) ((tables d).apis k.api_id) a parent in
        let (rw', ew, _) =
          map_row-some (workspace_of json) ((tables d).workspaces k.workspace_id) w owner in
        responded
          (written d (new_id "key" t) (stored_key c (key_row json (stamped_key t k))) k.limit_refs
            (kept_key (precision json c) (stamped_key t k)) v.1
            (law.insert_key d v.0 (key_row json (stamped_key t k)) ra rw' ea ew
              (read_key-none json c (tables d) (new_id "key" t) v.1 fresh)
              (unused-NoRow json c (tables d) k.key_hash unused v.1) h)
            (kept.refs k.limit_refs) (key_with-key_row json c (stamped_key t k)))
          (Postgres.key_inserted (stamped_key t k) k.api_id) (stamped_key t k) refl

    pub revoke_key-Returns :
        (t : Stamp) (id : String) (k : Key)
        → (view d).keys id ≡ some k
        → Returns Valid view
            (revoke_key json pool t id d)
            tt
            (with_key id (record k { enabled = false; updated_at = c.timestamptz t.now }) (view d))
    unfolding revoke_key key_with
    revoke_key-Returns t id k e =
        responded
          (rewritten d id k (λ k. record k { enabled = false; updated_at = c.timestamptz t.now })
            (λ r. record r { enabled = false; updated_at = c.timestamptz t.now }) v.1 e (λ r. refl)
            (λ r refs. refl) (λ r refs er q. law.update_enabled d v.0 t.now id r er))
          Postgres.revoked tt refl

    -- A key that is revoked already is only updated once more.
    pub revoke_key_again :
        (t : Stamp) (id : String) (k : Key)
        → (view d).keys id ≡ some k
        → k.enabled ≡ false
        → Returns Valid view
            (revoke_key json pool t id d)
            tt
            (with_key id (record k { updated_at = c.timestamptz t.now }) (view d))
    revoke_key_again t id k e off =
        subst
          (λ b.
            Returns Valid view (revoke_key json pool t id d) tt
              (with_key id (record k { enabled = b; updated_at = c.timestamptz t.now }) (view d)))
          (sym off) (revoke_key-Returns t id k e)

    pub touch-Returns :
        (id : String) (at : Time) (k : Key)
        → (view d).keys id ≡ some k
        → Returns Valid view
            (touch_last_verified json pool id at d)
            tt
            (with_key id (record k { last_verified_at = some (c.timestamptz at) }) (view d))
    unfolding touch_last_verified key_with
    touch-Returns id at k e =
        responded
          (rewritten d id k (λ k. record k { last_verified_at = some (c.timestamptz at) })
            (λ r. record r { last_verified_at = some (c.timestamptz at) }) v.1 e (λ r. refl)
            (λ r refs. refl) (λ r refs er q. law.update_last_verified d v.0 at id r er))
          Postgres.touched tt refl

    pub rotate_key-Returns :
        (t : Stamp) (id : String) (h : Bytes) (k : Key)
        → (view d).keys id ≡ some k
        → HashFree (view d) id h
        → let k' = record k { key_hash = h; updated_at = c.timestamptz t.now } in
          Returns Valid view (rotate_key json pool t id h d) k' (with_key id k' (view d))
    unfolding rotate_key Postgres.after_rehash key_with
    rotate_key-Returns t id h k e free =
        let ret =
          rewritten d id k (λ k. record k { key_hash = h; updated_at = c.timestamptz t.now })
            (λ r. record r { key_hash = h; updated_at = c.timestamptz t.now }) v.1 e (λ r. refl)
            (λ r refs. refl)
            (λ r refs er q.
              law.update_hash d v.0 h t.now id r er
                (free-Others json c (tables d) id h free v.1)) in
        let (row, here, _, _, _) = read_key-some json c ((tables d).keys id) k e in
        let held = law.key_text d v.0 id row here in
        let d' = (pool.update_hash h t.now id d).1 in
        let k' = record k { key_hash = h; updated_at = c.timestamptz t.now } in
        let got = get_key_by_id-found json law d' ret.valid.0 ret.valid.1 id held in
        let hit = ap (λ u. found (u.keys id)) ret.after ∙ found-update id k' (view d).keys in
        continued ret (Postgres.after_rehash json pool id) k' (got ∙ ap (λ o. (o, d')) hit)

    pub decrement-Returns :
        (t : Stamp) (id : String) (k : Key)
        → (view d).keys id ≡ some k
        → is_pos k.remaining_uses ≡ true
        → let k' = record k {
          remaining_uses = pred k.remaining_uses;
          updated_at = c.timestamptz t.now;
        } in
          Returns Valid view
            (decrement_remaining_uses json pool t id d)
            (pred k.remaining_uses)
            (with_key id k' (view d))
    unfolding decrement_remaining_uses Postgres.after_decrement key_with
    decrement-Returns t id k e positive =
        let ret =
          rewritten d id k
            (λ k. record k {
              remaining_uses = pred k.remaining_uses;
              updated_at = c.timestamptz t.now;
            })
            (λ r. record r {
              remaining_uses = pred r.remaining_uses;
              updated_at = c.timestamptz t.now;
            })
            v.1 e (λ r. refl) (λ r refs. refl)
            (λ r refs er q.
              let same = ap (λ k. k.remaining_uses) q in
              subst
                (λ n. Done tables Sound (pool.update_remaining t.now id d) (pred n) (
                  with_key_row id
                    (record r {
                      remaining_uses = pred r.remaining_uses;
                      updated_at = c.timestamptz t.now;
                    })
                    (tables d)))
                same (law.update_remaining d v.0 t.now id r er (ap is_pos same ∙ positive))) in
        continued ret (Postgres.after_decrement json pool id) (pred k.remaining_uses) refl
