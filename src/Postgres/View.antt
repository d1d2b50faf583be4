-- ===== src/Postgres/View.antt =====
-- The view of the tables, and how writes of rows show in it.
use mathlib.Core.Path.{fun_ext}
use keychain.Base.{
  String, String-Comparable, ◌≡◌, refl, sym, Option, none, some, List, [], ◌∷◌, arith, Outcome, ok,
  err, Bool-cases, inl, inr, ◌==◌,
}
use keychain.Store.{Time, Err, Key, LimitRef}
use keychain.Base.Map.{update}
use keychain.Store.Contract.{View, Precision, kept_key, kept_time}
use keychain.Postgres.Codec.{
  Json, KeyRow, key_row, workspace_row, api_row, workspace_of, api_of, key_of, key_with,
  marshal_metadata, unmarshal_metadata, non_nil_strings, null_time,
}
use keychain.Postgres.Engine.{Columns, Tables, stored_key, null_timestamptz}

abbrev pub map_row : {A B : Type 0} → (A → B) → Option A → Option B
map_row f none = none
map_row f (some r) = some (f r)

abbrev pub readable : {E A : Type 0} → Outcome E A → Option A
readable (ok a) = some a
readable (err e) = none

pub map_row-some :
    {A B : Type 0} (f : A → B) (o : Option A) (b : B)
    → map_row f o ≡ some b
    → (a : A) × (o ≡ some a) × (f a ≡ b)
map_row-some f none b e = cc
map_row-some f (some a) b e = (a, refl, cc)

pub map_row-none : {A B : Type 0} (f : A → B) (o : Option A) → map_row f o ≡ none → o ≡ none
map_row-none f none e = refl
map_row-none f (some a) e = cc

null_time_lem : (t : Option Time) → null_time t ≡ t
unfolding null_time
null_time_lem none = refl
null_time_lem (some t) = refl

non_nil_strings_lem : (ss : List String) → non_nil_strings ss ≡ ss
unfolding non_nil_strings
non_nil_strings_lem [] = refl
non_nil_strings_lem (s ∷ ss) = refl

module _ (json : Json) (c : Columns) where
  -- What the database keeps of an instant and of a metadata map, and what it can hold. The update of a
  -- revoked key that is revoked again is set to the clock.
  abbrev pub precision : Precision
  precision = record {
    time = c.timestamptz;
    metadata = λ m. unmarshal_metadata json (c.jsonb (marshal_metadata json m));
    updated_again = λ now before. c.timestamptz now;
    holds_text = c.holds_text;
    holds_workspace = λ w. c.holds_workspace (workspace_row json w);
    holds_api = λ a. c.holds_api (api_row json a);
    holds_key = λ k. c.holds_key (key_row json k);
  }

  abbrev pub read_key : Option KeyRow → Option Key
  read_key none = none
  read_key (some r) = readable (key_of json r)

  abbrev pub view_tables : Tables → View
  view_tables t = record {
    workspaces = λ id. map_row (workspace_of json) (t.workspaces id);
    apis = λ id. map_row (api_of json) (t.apis id);
    keys = λ id. read_key (t.keys id);
  }

  null_timestamptz_lem :
      (t : Option Time) → null_time (null_timestamptz c t) ≡ kept_time precision t
  unfolding null_time
  null_timestamptz_lem none = refl
  null_timestamptz_lem (some t) = refl

  -- A key that was inserted is read back as what the database keeps of it.
  pub key_with-key_row :
      (k : Key) → key_with json (stored_key c (key_row json k)) k.limit_refs ≡ kept_key precision k
  unfolding key_row key_with
  key_with-key_row k = λ i. record (kept_key precision k) {
    permissions = non_nil_strings_lem k.permissions i;
    expires_at = null_timestamptz_lem k.expires_at i;
    last_verified_at = null_timestamptz_lem k.last_verified_at i;
  }

  -- A key that is read comes from a row whose references can be parsed.
  pub read_key-some :
      (o : Option KeyRow) (k : Key)
      → read_key o ≡ some k
      → (r : KeyRow) × (o ≡ some r)
        × (refs : List LimitRef) × (json.unmarshal_refs r.limit_refs ≡ ok refs)
        × (key_with json r refs ≡ k)
  unfolding key_of
  read_key-some none k e = cc
  read_key-some (some r) k e = parsed (json.unmarshal_refs r.limit_refs) refl
    where
      parsed :
          (p : Outcome Err (List LimitRef))
          → json.unmarshal_refs r.limit_refs ≡ p
          → (s : KeyRow) × (some r ≡ some s)
            × (refs : List LimitRef) × (json.unmarshal_refs s.limit_refs ≡ ok refs)
            × (key_with json s refs ≡ k)
      parsed (err x) h = absurd (cc (sym (rw (h, key_of) at e)))
      parsed (ok refs) h = (r, refl, refs, h, cc (rw (h, key_of) at e))

  pub map_row-update :
      {A B : Type 0} (f : A → B) (id : String) (a : A) (m : String → Option A)
      → ◌≡◌ {A = String → Option B}
          (λ j. map_row f (update id a m j))
          (update id (f a) (λ j. map_row f (m j)))
  map_row-update f id a m = fun_ext λ j. ground arith

  pub read_key-update :
      (id : String) (r : KeyRow) (k : Key) (m : String → Option KeyRow)
      → key_of json r ≡ ok k
      → ◌≡◌ {A = String → Option Key}
          (λ j. read_key (update id r m j))
          (update id k (λ j. read_key (m j)))
  read_key-update id r k m e =
      fun_ext λ j. elim (Bool-cases (id == j)) [ inl hit ↦ rw hit (rw e) | inr miss ↦ rw miss ]
