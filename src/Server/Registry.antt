-- ===== src/Server/Registry.antt =====
-- What the administrative handlers answer: a workspace and an API that are created can be read, an
-- unknown id is not found, and ListKeys answers with a page.
use keychain.Base.{
  String, Bytes, String-Comparable, true, false, ◌≡◌, ◌≢◌, refl, ap, ◌∙◌, none, some, map, ok, err,
  ◌==◌, equal_ne,
}
use keychain.Store.{sentinel, not_found, Workspace, Api, ListKeysOpts, ListKeysResult, new_id}
use keychain.Store.Contract.{
  Precision, View, Contract, found, kept_workspace, kept_api, stamped_workspace, stamped_api,
}
use keychain.Store.Page.{IsPage}
use keychain.Store.Pages.{Paged}
use keychain.Store.Ids.{workspace_id-not_empty, api_id-not_empty}
use keychain.Wire
use keychain.Server.{Server, World, Readings, Status, status, Code, error_text, map_store_err}
use keychain.Server.Convert.{Timestamps, workspace_to_proto, api_to_proto, key_to_proto}
use keychain.Server.Admin.{
  create_workspace, get_workspace, create_api, get_api, get_key, revoke_key, rotate_key, list_keys,
}
use keychain.Server.Decision.{update_self}

-- The status of an unknown id.
abbrev pub unknown : Status
unknown = status Code.not_found (error_text (sentinel not_found))

module _ {S R : Type 0} (ts : Timestamps) (sum256 : String → Bytes) (srv : Server S R)
    (env : Readings) (Valid : S → Type 0) (view : S → View) {precision : Precision}
    (c : Contract Valid view precision srv.store) where
  open ts use {Timestamp}

  -- What the handlers hand to the store, and what the store makes of it.
  abbrev handed_workspace : Wire.CreateWorkspaceRequest → Workspace
  handed_workspace req = record {
    workspace_id = "";
    name = req.name;
    owner_principal_id = req.owner_principal_id;
    created_at = 0;
    updated_at = 0;
    metadata = req.metadata;
  }

  abbrev pub new_workspace : Wire.CreateWorkspaceRequest → Workspace
  new_workspace req = stamped_workspace env.stamp (handed_workspace req)

  abbrev handed_api : Wire.CreateApiRequest → Api
  handed_api req = record {
    api_id = "";
    workspace_id = req.workspace_id;
    name = req.name;
    key_prefix = req.key_prefix;
    created_at = 0;
    updated_at = 0;
    metadata = req.metadata;
  }

  abbrev pub new_api : Wire.CreateApiRequest → Api
  new_api req = stamped_api env.stamp (handed_api req)

  module _ (w : World S R) (v : Valid w.stored) where
    -- A workspace or an API that the store has is answered, and nothing changes.
    get_workspace-found :
        (id : String) (u : Workspace)
        → (id == "") ≡ false
        → (view w.stored).workspaces id ≡ some u
        → get_workspace ts sum256 srv env (record { workspace_id = id }) w
          ≡ (ok (record { workspace = workspace_to_proto ts u }), w)
    unfolding get_workspace
    get_workspace-found id u given held = rw given (
        rw
          (c.get_workspace w.stored v id (c.workspace_text w.stored v id u held)
            ∙ ap (λ o. (found o, w.stored)) held)
          refl)

    get_api-found :
        (id : String) (a : Api)
        → (id == "") ≡ false
        → (view w.stored).apis id ≡ some a
        → get_api ts sum256 srv env (record { api_id = id }) w
          ≡ (ok (record { api = api_to_proto ts a }), w)
    unfolding get_api
    get_api-found id a given held = rw given (
        rw
          (c.get_api w.stored v id (c.api_text w.stored v id a held)
            ∙ ap (λ o. (found o, w.stored)) held)
          refl)

    -- On a valid store, for an id that is not empty, that the store could hold and that no
    -- workspace, API or key has, GetWorkspace, GetApi, GetKey, RevokeKey and RotateKey all fail
    -- with the status NotFound and change nothing.
    pub unknown-NotFound :
        (id : String)
        → id ≢ ""
        → precision.holds_text id ≡ true
        → (view w.stored).workspaces id ≡ none
        → (view w.stored).apis id ≡ none
        → (view w.stored).keys id ≡ none
        → (get_workspace ts sum256 srv env (record { workspace_id = id }) w ≡ (err unknown, w))
          × (get_api ts sum256 srv env (record { api_id = id }) w ≡ (err unknown, w))
          × (get_key ts sum256 srv env (record { key_id = id }) w ≡ (err unknown, w))
          × (revoke_key ts sum256 srv env (record { key_id = id }) w ≡ (err unknown, w))
          × (rotate_key ts sum256 srv env (record { key_id = id }) w ≡ (err unknown, w))
    unfolding get_workspace get_api get_key revoke_key rotate_key map_store_err
    unknown-NotFound id given text no_workspace no_api no_key =
        let key = c.get_key_by_id w.stored v id text ∙ ap (λ o. (found o, w.stored)) no_key in
        (
          rw (equal_ne id "" given) (
              rw (c.get_workspace w.stored v id text ∙ ap (λ o. (found o, w.stored)) no_workspace)
                refl),
          rw (equal_ne id "" given)
              (rw (c.get_api w.stored v id text ∙ ap (λ o. (found o, w.stored)) no_api) refl),
          rw (equal_ne id "" given) (rw key refl),
          rw (equal_ne id "" given)
              (rw (c.revoke_key_missing w.stored v env.stamp id no_key text) refl),
          rw (equal_ne id "" given) (rw key refl),
        )

  module _ (w : World S R) (v : Valid w.stored) where
    -- On a valid store, CreateWorkspace with a name and an owner and with a fresh id, for a
    -- workspace that the store can hold, answers with the new workspace; afterwards GetWorkspace of
    -- its id answers with this workspace, up to what the driver keeps of its instants and metadata,
    -- and changes nothing.
    pub create_workspace-get :
        (req : Wire.CreateWorkspaceRequest)
        → req.name ≢ ""
        → req.owner_principal_id ≢ ""
        → (view w.stored).workspaces (new_id "ws" env.stamp) ≡ none
        → precision.holds_workspace (new_workspace req) ≡ true
        → let (r, w') = create_workspace ts sum256 srv env req w in
          let id = new_id "ws" env.stamp in
          (r ≡ ok (record { workspace = workspace_to_proto ts (new_workspace req) }))
          × (get_workspace ts sum256 srv env (record { workspace_id = id }) w' ≡ (
            ok (record {
              workspace = workspace_to_proto ts (kept_workspace precision (new_workspace req));
            }),
            w',
          ))
    unfolding create_workspace
    create_workspace-get req named owned fresh held =
        let ret = c.create_workspace w.stored v env.stamp _ fresh held in
        let id = new_id "ws" env.stamp in
        let kept = kept_workspace precision (new_workspace req) in
        let s = (srv.store.create_workspace env.stamp (handed_workspace req) w.stored).1 in
        let call : srv.store.create_workspace env.stamp (handed_workspace req) w.stored
            ≡ (ok (new_workspace req), s) =
          λ i. (ret.result i, s) in
        rw (equal_ne req.name "" named, equal_ne req.owner_principal_id "" owned)
          (rw call (
            refl,
            get_workspace-found (record w { stored = s }) ret.valid id kept
                (workspace_id-not_empty env.stamp)
                (ap (λ u. u.workspaces id) ret.after
                  ∙ update_self id kept (view w.stored).workspaces),
          ))

    -- On a valid store, CreateApi with a name, in a named workspace that the store has, and with a
    -- fresh id, for an API that the store can hold, answers with the new API; afterwards GetApi of
    -- its id answers with this API, up to what the driver keeps of its instants and metadata, and
    -- changes nothing.
    pub create_api-get :
        (req : Wire.CreateApiRequest) (u : Workspace)
        → req.workspace_id ≢ ""
        → req.name ≢ ""
        → (view w.stored).workspaces req.workspace_id ≡ some u
        → (view w.stored).apis (new_id "api" env.stamp) ≡ none
        → precision.holds_api (new_api req) ≡ true
        → let (r, w') = create_api ts sum256 srv env req w in
          let id = new_id "api" env.stamp in
          (r ≡ ok (record { api = api_to_proto ts (new_api req) }))
          × (get_api ts sum256 srv env (record { api_id = id }) w'
              ≡ (ok (record { api = api_to_proto ts (kept_api precision (new_api req)) }), w'))
    unfolding create_api
    create_api-get req u owned named parent fresh held =
        let ret = c.create_api w.stored v env.stamp (handed_api req) u parent fresh held in
        let id = new_id "api" env.stamp in
        let kept = kept_api precision (new_api req) in
        let s = (srv.store.create_api env.stamp (handed_api req) w.stored).1 in
        let call : srv.store.create_api env.stamp (handed_api req) w.stored
            ≡ (ok (new_api req), s) =
          λ i. (ret.result i, s) in
        rw (equal_ne req.workspace_id "" owned, equal_ne req.name "" named)
          (rw call (
            refl,
            get_api-found (record w { stored = s }) ret.valid id kept (api_id-not_empty env.stamp)
                (ap (λ u. u.apis id) ret.after ∙ update_self id kept (view w.stored).apis),
          ))

  -- The page of the request.
  abbrev pub asked : Wire.ListKeysRequest → ListKeysOpts
  asked req = record {
    api_id = req.api_id;
    owner_principal_id = req.owner_principal_id;
    page_size = req.page_size;
    page_token = req.page_token;
  }

  -- At any store whose ListKeys returns pages as store.go promises, on a valid state, the handler
  -- ListKeys with a named API succeeds and changes nothing: its answer is, converted to wire
  -- messages, such a page of the store for the API, the owner, the page size and the page token of
  -- the request, and has the next token of that page.
  pub list_keys-page :
      (paged : Paged Valid view srv.store) (req : Wire.ListKeysRequest) (w : World S R)
      → Valid w.stored
      → req.api_id ≢ ""
      → (page : ListKeysResult) × (list_keys ts sum256 srv env req w ≡ (
        ok (record {
          keys = map (key_to_proto ts) page.keys;
          next_page_token = page.next_page_token;
        }),
        w,
      ))
        × IsPage (view w.stored) (asked req) page
  unfolding list_keys
  list_keys-page paged req w v given =
      let (page, run, is) = paged.list_keys w.stored v (asked req) in
      (page, rw (equal_ne req.api_id "" given) (rw run refl), is)
