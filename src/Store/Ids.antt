-- ===== src/Store/Ids.antt =====
-- The ids that newID makes.
use text.Mathlib.TextLemmas.{append_cancel_left, append-eq-nil_iff}
use keychain.Base.{String, String-Comparable, ◌≡◌, ◌≢◌, false, ◌==◌, equal_ne}
use keychain.Store.{Stamp, new_id}

pub new_id-ne :
    (prefix : String) (t u : Stamp) → t.uuid ≢ u.uuid → new_id prefix t ≢ new_id prefix u
new_id-ne prefix t u ne e =
    ne (append_cancel_left "_" t.uuid u.uuid (append_cancel_left prefix _ _ e))

-- A key id, an API id and a workspace id are not empty.
pub key_id-not_empty : (t : Stamp) → (new_id "key" t == "") ≡ false
key_id-not_empty t = equal_ne (new_id "key" t) "" λ e. cc (((append-eq-nil_iff).0 e).0)

pub api_id-not_empty : (t : Stamp) → (new_id "api" t == "") ≡ false
api_id-not_empty t = equal_ne (new_id "api" t) "" λ e. cc (((append-eq-nil_iff).0 e).0)

pub workspace_id-not_empty : (t : Stamp) → (new_id "ws" t == "") ≡ false
workspace_id-not_empty t = equal_ne (new_id "ws" t) "" λ e. cc (((append-eq-nil_iff).0 e).0)
