-- ===== src/Postgres/Tests/Pages.antt =====
-- A database with two keys, and its pages.
use keychain.Base.{
  String, String-Comparable, Bytes, Bytes-Comparable, ◌≡◌, ◌≢◌, ◌⊎◌, sym, refl, true, none, some,
  [], ◌∷◌, ok, inl, inr, arith, eq_iff, Bool-cases, ◌==◌,
}
use keychain.Base.Map.{get, put}
use keychain.Memory.Index.{Indexed-insert, Indexed-empty}
use keychain.Base.Lists.{take}
use keychain.Base.Int.{pos, negsuc}
use keychain.Base.Order.{str_lt}
use keychain.Store.{ListKeysOpts, Key, ListKeysResult}
use keychain.Store.Page.{IsPage}
use keychain.Postgres.Codec.{WorkspaceRow, ApiRow, KeyRow}
use keychain.Postgres.Query.{Answered}
use keychain.Postgres.Reads.{Parsed}
use keychain.Postgres.View.{view_tables, read_key-some}
use keychain.Postgres.Listing.{listed-IsPage}
use keychain.Postgres.{list_keys}
use keychain.Postgres.Tests.Encoding.{json, columns}
use keychain.Postgres.Tests.Database.{Database, tables, Sound, pool}
use keychain.Postgres.Tests.Behaviour.{engine}

abbrev workspace_1 : WorkspaceRow
workspace_1 = record {
  workspace_id = "ws_1";
  name = "acme";
  owner_principal_id = "user_1";
  created_at = 0;
  updated_at = 0;
  metadata = [];
}

abbrev api_1 : ApiRow
api_1 = record {
  api_id = "api_1";
  workspace_id = "ws_1";
  name = "orders";
  key_prefix = "kc_";
  created_at = 0;
  updated_at = 0;
  metadata = [];
}

abbrev row_1 : KeyRow
row_1 = record {
  key_id = "key_1";
  api_id = "api_1";
  workspace_id = "ws_1";
  owner_principal_id = "user_1";
  name = "first";
  key_hash = 6 ∷ [];
  permissions = [];
  limit_refs = [];
  expires_at = none;
  remaining_uses = negsuc 0;
  enabled = true;
  created_at = 0;
  updated_at = 0;
  last_verified_at = none;
  metadata = [];
}

abbrev row_2 : KeyRow
row_2 = record row_1 { key_id = "key_2"; key_hash = 7 ∷ [] }

-- The entry of the later key stands first.
abbrev database : Database
database = record {
  workspaces = ("ws_1", workspace_1) ∷ [];
  apis = ("api_1", api_1) ∷ [];
  keys = ("key_2", row_2) ∷ ("key_1", row_1) ∷ [];
  hash_index = (7 ∷ [], "key_2") ∷ (6 ∷ [], "key_1") ∷ [];
}

-- One key for each page.
abbrev options : ListKeysOpts
options = record { api_id = "api_1"; owner_principal_id = ""; page_size = pos 1; page_token = "" }

stored :
    (id : String) (r : KeyRow)
    → get id database.keys ≡ some r
    → ((id ≡ "key_2") × (r ≡ row_2)) ⊎ ((id ≡ "key_1") × (r ≡ row_1))
unfolding get
stored id r e = elim (Bool-cases ("key_2" == id)) [
  | inl hit ↦ inl (sym ((eq_iff "key_2" id).0 hit), cc (rw hit at e))
  | inr miss ↦ elim (Bool-cases ("key_1" == id)) [
    | inl hit ↦ inr (sym ((eq_iff "key_1" id).0 hit), cc (rw (miss, hit) at e))
    | inr other ↦ cc (rw (miss, other) at e)
  ]
]

database-Parsed : Parsed json (tables database)
database-Parsed id r e = elim (stored id r e) [
  | inl (_, h) ↦ rw h ([], refl)
  | inr (_, h) ↦ rw h ([], refl)
]

stored_api : (id : String) (r : ApiRow) → get id database.apis ≡ some r → r ≡ api_1
unfolding get
stored_api id r e = elim (Bool-cases ("api_1" == id)) [
  | inl hit ↦ cc (rw hit at e)
  | inr miss ↦ cc (rw miss at e)
]

abbrev row_hash : KeyRow → Bytes
row_hash r = r.key_hash

database-Sound : Sound database
unfolding get put
database-Sound = record {
  workspace = λ id r e. ground (arith, e, eq_iff "ws_1" id);
  api = λ id r e. ground (arith, e, eq_iff "api_1" id);
  key =
      λ id r e. elim (stored id r e) [ inl (p, h) ↦ rw (p, h) refl | inr (p, h) ↦ rw (p, h) refl ];
  parent = λ id r e. rw (stored_api id r e) (workspace_1, refl);
  indexed =
      Indexed-insert _ _ (Indexed-insert _ _ (Indexed-empty row_hash) "key_2" row_2 refl refl)
        "key_1" row_1 refl refl;
}

database-Answered : Answered tables pool database options 2
unfolding get str_lt take
database-Answered = record {
  rows = row_1 ∷ row_2 ∷ [];
  answer = refl;
  selected = ((refl, (refl, inl refl), inl refl), ((refl, (refl, inl refl), inl refl), tt));
  ordered = ((refl, tt), (tt, tt));
  bounded = omega arith;
  complete = λ id r e sel behind. elim (stored id r e) [
    | inl (p, h) ↦ inl (1, rw h refl)
    | inr (p, h) ↦ inl (0, rw h refl)
  ];
}

database-named :
    (id : String) (k : Key)
    → (view_tables json columns (tables database)).keys id ≡ some k
    → id ≢ ""
database-named id k e blank =
    let (r, er, refs, p, q) = read_key-some json columns (get id database.keys) k e in
    elim (stored id r er) [ inl (h, _) ↦ cc (h, blank) | inr (h, _) ↦ cc (h, blank) ]

listed-IsPage_example :
    (r : ListKeysResult) × (list_keys json pool options database ≡ (ok r, database))
    × IsPage (view_tables json columns (tables database)) options r
listed-IsPage_example =
    listed-IsPage json engine database database-Sound database-Parsed options database-Answered
      database-named
