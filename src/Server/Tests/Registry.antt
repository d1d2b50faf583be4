-- ===== src/Server/Tests/Registry.antt =====
-- The theorems on the administrative handlers, applied to the small store. Here the uuid is "2".
use keychain.Base.{ℕ, String-Comparable, ◌≡◌, refl, none, some, [], ◌∷◌, map, ok, err}
use keychain.Base.Int.{pos}
use keychain.Base.Map.{get}
use keychain.Store.{ListKeysResult}
use keychain.Store.Contract.{kept_workspace, kept_api}
use keychain.Store.Page.{IsPage}
use keychain.Memory.Driver.{view, exact}
use keychain.Memory.Pages.{driver-Paged}
use keychain.Memory.Invariant.{IsValid}
use keychain.Memory.Refinement.{driver-Contract}
use keychain.Memory.History.{Reach-IsValid}
use keychain.Memory.Tests.{key_1, workspace_1, holding_key_1-Reach}
use keychain.Wire
use keychain.Server.Convert.{Timestamps, workspace_to_proto, api_to_proto, key_to_proto}
use keychain.Server.Admin.{
  create_workspace, get_workspace, create_api, get_api, get_key, revoke_key, rotate_key, list_keys,
}
use keychain.Server.Registry.{
  unknown, new_workspace, new_api, asked, unknown-NotFound, create_workspace-get, create_api-get,
  list_keys-page,
}
use keychain.Server.Tests.{sum, readings, server, world}

-- A stand-in for timestamppb.
abbrev instants : Timestamps
instants = record { Timestamp = ℕ; new = λ t. t; as_time = λ t. t }

abbrev founding : Wire.CreateWorkspaceRequest
founding = record {
  name = "beta";
  owner_principal_id = "user_2";
  metadata = some (("tier", "prod") ∷ []);
}

abbrev adding : Wire.CreateApiRequest
adding = record { workspace_id = "ws_1"; name = "billing"; key_prefix = "kb_"; metadata = none }

abbrev listing : Wire.ListKeysRequest
listing = record { api_id = "api_1"; owner_principal_id = ""; page_size = pos 1; page_token = "" }

create_workspace-get_example :
    let (r, w') = create_workspace instants sum (server none) readings founding (world key_1) in
    let u =
      new_workspace instants sum (server none) readings IsValid view driver-Contract founding in
    (r ≡ ok (record { workspace = workspace_to_proto instants u }))
    × (get_workspace instants sum (server none) readings (record { workspace_id = "ws_2" }) w'
        ≡ (ok (record { workspace = workspace_to_proto instants (kept_workspace exact u) }), w'))
unfolding get
create_workspace-get_example =
    create_workspace-get instants sum (server none) readings IsValid view driver-Contract
      (world key_1) (Reach-IsValid holding_key_1-Reach) founding (λ e. cc e) (λ e. cc e) refl refl

create_api-get_example :
    let (r, w') = create_api instants sum (server none) readings adding (world key_1) in
    let a = new_api instants sum (server none) readings IsValid view driver-Contract adding in
    (r ≡ ok (record { api = api_to_proto instants a }))
    × (get_api instants sum (server none) readings (record { api_id = "api_2" }) w'
        ≡ (ok (record { api = api_to_proto instants (kept_api exact a) }), w'))
unfolding get
create_api-get_example =
    create_api-get instants sum (server none) readings IsValid view driver-Contract (world key_1)
      (Reach-IsValid holding_key_1-Reach) adding workspace_1 (λ e. cc e) (λ e. cc e) refl refl refl

unknown-NotFound_example :
    (get_workspace instants sum
        (server none)
        readings
        (record { workspace_id = "none" })
        (world key_1)
      ≡ (err unknown, world key_1))
    × (get_api instants sum (server none) readings (record { api_id = "none" }) (world key_1)
        ≡ (err unknown, world key_1))
    × (get_key instants sum (server none) readings (record { key_id = "none" }) (world key_1)
        ≡ (err unknown, world key_1))
    × (revoke_key instants sum (server none) readings (record { key_id = "none" }) (world key_1)
        ≡ (err unknown, world key_1))
    × (rotate_key instants sum (server none) readings (record { key_id = "none" }) (world key_1)
        ≡ (err unknown, world key_1))
unfolding get
unknown-NotFound_example =
    unknown-NotFound instants sum (server none) readings IsValid view driver-Contract (world key_1)
      (Reach-IsValid holding_key_1-Reach) "none" (λ e. cc e) refl refl refl refl

list_keys-page_example :
    (page : ListKeysResult) × (list_keys instants sum (server none) readings listing (world key_1)
      ≡ (
        ok (record {
          keys = map (key_to_proto instants) page.keys;
          next_page_token = page.next_page_token;
        }),
        world key_1,
      ))
    × IsPage
        (view (world key_1).stored)
        (asked instants sum (server none) readings IsValid view driver-Contract listing)
        page
list_keys-page_example =
    list_keys-page instants sum (server none) readings IsValid view driver-Contract driver-Paged
      listing (world key_1) (Reach-IsValid holding_key_1-Reach) (λ e. cc e)
