-- ===== src/Memory/Clone.antt =====
-- A clone is equal to what it copies, and the ids of a cloned record are its own.
use keychain.Base.{◌≡◌, refl, Option, none, some}
use keychain.Store.{Time, Metadata, Workspace, Api, Key}
use keychain.Memory.{clone_time_ptr, clone_map, clone_workspace, clone_api, clone_key}

clone_time_ptr_lem : (t : Option Time) → clone_time_ptr t ≡ t
unfolding clone_time_ptr
clone_time_ptr_lem none = refl
clone_time_ptr_lem (some t) = refl

clone_map_lem : (m : Metadata) → clone_map m ≡ m
unfolding clone_map
clone_map_lem none = refl
clone_map_lem (some m) = refl

pub clone_workspace_lem : (w : Workspace) → clone_workspace w ≡ w
unfolding clone_workspace
clone_workspace_lem w = λ i. record w { metadata = clone_map_lem w.metadata i }

pub clone_api_lem : (a : Api) → clone_api a ≡ a
unfolding clone_api
clone_api_lem a = λ i. record a { metadata = clone_map_lem a.metadata i }

pub clone_key_lem : (k : Key) → clone_key k ≡ k
unfolding clone_key
clone_key_lem k = λ i. record k {
  expires_at = clone_time_ptr_lem k.expires_at i;
  last_verified_at = clone_time_ptr_lem k.last_verified_at i;
  metadata = clone_map_lem k.metadata i;
}

pub ruleset clones = (clone_workspace_lem, clone_api_lem, clone_key_lem)
