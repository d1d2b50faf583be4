-- ===== src/Memory/Tests.antt =====
-- A small store, the history that leads to it, and the driver's theorems applied to it.
use keychain.Store.{ListKeysResult}
use keychain.Store.Page.{IsPage}
use keychain.Memory.Page.{list_keys}
use keychain.Memory.Pages.{list_keys-IsPage}
use keychain.Memory.Driver.{view}
use keychain.Base.{ok}
use keychain.Base.{
  String-Comparable, Bytes-Comparable, ◌≡◌, refl, true, none, some, List, [], ◌∷◌, arith,
}
use keychain.Base.Map.{get, put}
use keychain.Base.Int.{pos, negsuc}
use keychain.Store.{Workspace, Api, Key, Stamp, ListKeysOpts}
use keychain.Memory.{
  Memory, create_workspace, create_api, create_key, insert_key, stamp_key, stamp_api, clone_key,
  clone_api, clone_workspace, clone_map, clone_time_ptr,
}
use keychain.Memory.Page.{matching_ids, matches}
use keychain.Memory.Walk.{list_all}
use keychain.Memory.Listing.{Listing, list_all-Listing}
use keychain.Memory.Invariant.{IsValid}
use keychain.Memory.History.{
  Reach, here, next, creates_workspace, creates_api, creates_key, Reach-IsValid,
}

abbrev pub at_100 : Stamp
at_100 = record { now = 100; uuid = "1" }

abbrev pub workspace_1 : Workspace
workspace_1 = record {
  workspace_id = "ws_1";
  name = "acme";
  owner_principal_id = "user_1";
  created_at = 100;
  updated_at = 100;
  metadata = none;
}

abbrev pub api_1 : Api
api_1 = record {
  api_id = "api_1";
  workspace_id = "ws_1";
  name = "orders";
  key_prefix = "kc_";
  created_at = 100;
  updated_at = 100;
  metadata = none;
}

abbrev pub key_1 : Key
key_1 = record {
  key_id = "key_1";
  api_id = "api_1";
  workspace_id = "ws_1";
  owner_principal_id = "user_1";
  name = "first";
  key_hash = 6 ∷ [];
  permissions = "read" ∷ "write" ∷ [];
  limit_refs = [];
  expires_at = some 500;
  remaining_uses = pos 2;
  enabled = true;
  created_at = 100;
  updated_at = 100;
  last_verified_at = none;
  metadata = none;
}

-- The same key with a rate limit.
abbrev pub limited_1 : Key
limited_1 = record key_1 { limit_refs = record { limit_id = "burst"; scope_key = "user_1" } ∷ [] }

-- A second key of the API.
abbrev key_2 : Key
key_2 = record key_1 { key_id = "key_2"; key_hash = 7 ∷ []; remaining_uses = negsuc 0 }

-- The store that holds the key `k`, under the id of the first key.
abbrev pub holding : Key → Memory
holding k = record {
  workspaces = ("ws_1", workspace_1) ∷ [];
  apis = ("api_1", api_1) ∷ [];
  keys = ("key_1", k) ∷ [];
  hash_index = (6 ∷ [], "key_1") ∷ [];
}

-- The store before any key is issued.
abbrev pub without_keys : Memory
without_keys = record (holding key_1) { keys = []; hash_index = [] }

pub without_keys-Reach : Reach without_keys
unfolding create_workspace create_api stamp_api clone_api clone_workspace clone_map get put
without_keys-Reach =
    next (next here (creates_workspace at_100 workspace_1)) (creates_api at_100 api_1)

pub holding_key_1-Reach : Reach (holding key_1)
unfolding create_workspace create_api create_key insert_key stamp_key stamp_api clone_key clone_api
    clone_workspace clone_map clone_time_ptr get put
holding_key_1-Reach =
    next (next (next here (creates_workspace at_100 workspace_1)) (creates_api at_100 api_1))
      (creates_key at_100 key_1 refl)

pub holding_limited_1-Reach : Reach (holding limited_1)
unfolding create_workspace create_api create_key insert_key stamp_key stamp_api clone_key clone_api
    clone_workspace clone_map clone_time_ptr get put
holding_limited_1-Reach =
    next (next (next here (creates_workspace at_100 workspace_1)) (creates_api at_100 api_1))
      (creates_key at_100 limited_1 refl)

-- The first store after a second key has been issued.
abbrev two_keys : Memory
two_keys = record (holding key_1) {
  keys = ("key_1", key_1) ∷ ("key_2", key_2) ∷ [];
  hash_index = (6 ∷ [], "key_1") ∷ (7 ∷ [], "key_2") ∷ [];
}

two_keys-Reach : Reach two_keys
unfolding create_key insert_key stamp_key clone_key clone_map clone_time_ptr get put
two_keys-Reach =
    next holding_key_1-Reach (creates_key (record { now = 100; uuid = "2" }) key_2 refl)

Reach-IsValid_example : IsValid two_keys
Reach-IsValid_example = Reach-IsValid two_keys-Reach

-- All keys of the API, one to a page.
abbrev one_to_a_page : ListKeysOpts
one_to_a_page = record {
  api_id = "api_1";
  owner_principal_id = "";
  page_size = pos 1;
  page_token = "";
}

list_all-Listing_example :
    (keys : List Key) × (list_all 3 one_to_a_page two_keys ≡ some keys)
    × Listing two_keys (Reach-IsValid two_keys-Reach) one_to_a_page keys
unfolding matching_ids matches
list_all-Listing_example =
    list_all-Listing two_keys (Reach-IsValid two_keys-Reach) one_to_a_page 3 refl (omega arith)

list_keys-IsPage_example :
    (r : ListKeysResult) × (list_keys one_to_a_page two_keys ≡ (ok r, two_keys))
    × IsPage (view two_keys) one_to_a_page r
list_keys-IsPage_example = list_keys-IsPage two_keys (Reach-IsValid two_keys-Reach) one_to_a_page
