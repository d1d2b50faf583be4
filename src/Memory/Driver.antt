-- ===== src/Memory/Driver.antt =====
-- The in-memory driver as a `Store`, and the view of its state.
use keychain.Base.{String-Comparable, true}
use keychain.Base.Map.{get}
use keychain.Store.{Store}
use keychain.Store.Contract.{View, Precision}
use keychain.Memory
use keychain.Memory.{Memory}
use keychain.Memory.Page

abbrev pub driver : Store Memory
driver = record {
  create_workspace = Memory.create_workspace;
  get_workspace = Memory.get_workspace;
  create_api = Memory.create_api;
  get_api = Memory.get_api;
  create_key = Memory.create_key;
  get_key_by_id = Memory.get_key_by_id;
  get_key_by_hash = Memory.get_key_by_hash;
  revoke_key = Memory.revoke_key;
  rotate_key = Memory.rotate_key;
  list_keys = Page.list_keys;
  touch_last_verified = Memory.touch_last_verified;
  decrement_remaining_uses = Memory.decrement_remaining_uses;
}

abbrev pub view : Memory → View
view m = record {
  workspaces = λ id. get id m.workspaces;
  apis = λ id. get id m.apis;
  keys = λ id. get id m.keys;
}

-- The driver keeps what it is given and can hold everything, and a key that is revoked again stays as
-- it is.
abbrev pub exact : Precision
exact = record {
  time = λ t. t;
  metadata = λ m. m;
  updated_again = λ now before. before;
  holds_text = λ t. true;
  holds_workspace = λ w. true;
  holds_api = λ a. true;
  holds_key = λ k. true;
}
