-- ===== src/Memory/Reads.antt =====
-- What the reading operations return, by the view.
use keychain.Base.{
  String, Bytes, Bytes-Comparable, String-Comparable, ◌≡◌, ◌≢◌, ◌⊎◌, some, arith, ok, err,
  Option-cases, inl, inr,
}
use keychain.Base.Map.{get}
use keychain.Store.{sentinel, not_found, Key}
use keychain.Store.Contract.{found}
use keychain.Memory.{Memory, get_workspace, get_api, get_key_by_id, get_key_by_hash, key_at}
use keychain.Memory.Clone.{clone_workspace_lem, clone_api_lem, clone_key_lem}
use keychain.Memory.Invariant.{IsValid}

module _ (m : Memory) where
  pub get_workspace-found : (id : String) → get_workspace id m ≡ (found (get id m.workspaces), m)
  unfolding get_workspace
  get_workspace-found id = elim (Option-cases (get id m.workspaces)) [
    | inl e ↦ rw (e, get_workspace)
    | inr (w, e) ↦ rw (e, get_workspace) (simp clone_workspace_lem)
  ]

  pub get_api-found : (id : String) → get_api id m ≡ (found (get id m.apis), m)
  unfolding get_api
  get_api-found id = elim (Option-cases (get id m.apis)) [
    | inl e ↦ rw (e, get_api)
    | inr (a, e) ↦ rw (e, get_api) (simp clone_api_lem)
  ]

  pub get_key_by_id-found : (id : String) → get_key_by_id id m ≡ (found (get id m.keys), m)
  unfolding get_key_by_id
  get_key_by_id-found id = elim (Option-cases (get id m.keys)) [
    | inl e ↦ rw (e, get_key_by_id)
    | inr (k, e) ↦ rw (e, get_key_by_id) (simp clone_key_lem)
  ]

  pub get_key_by_hash_hit :
      IsValid m
      → (id : String) (k : Key) → get id m.keys ≡ some k
      → get_key_by_hash k.key_hash m ≡ (ok k, m)
  unfolding get_key_by_hash key_at
  get_key_by_hash_hit v id k e =
      rw (v.indexed.forward id k e, get_key_by_hash) (rw (e, key_at) (simp clone_key_lem))

  pub get_key_by_hash_miss :
      IsValid m
      → (h : Bytes) → ((id : String) (k : Key) → get id m.keys ≡ some k → k.key_hash ≢ h)
      → get_key_by_hash h m ≡ (err (sentinel not_found), m)
  unfolding get_key_by_hash
  get_key_by_hash_miss v h absent = elim (Option-cases (get h m.hash_index)) [
    | inl e ↦ rw (e, get_key_by_hash)
    | inr (id, e) ↦
        let (k, stored, same) = v.indexed.backward h id e in absurd (absent id k stored same)
  ]

  pub hash_cases :
      IsValid m
      → (h : Bytes)
      → ((id : String) × (k : Key) × (get id m.keys ≡ some k) × (k.key_hash ≡ h))
        ⊎ ((id : String) (k : Key) → get id m.keys ≡ some k → k.key_hash ≢ h)
  hash_cases v h = elim (Option-cases (get h m.hash_index)) [
    | inl e ↦ inr λ id k stored same. ground (arith, v.indexed.forward id k stored)
    | inr (id, e) ↦ let (k, stored, same) = v.indexed.backward h id e in inl (id, k, stored, same)
  ]

  -- Two keys with one hash would share one entry of the index.
  pub hash_unique :
      IsValid m
      → (i j : String) (k l : Key) → get i m.keys ≡ some k
      → get j m.keys ≡ some l
      → k.key_hash ≡ l.key_hash
      → i ≡ j
  hash_unique v i j k l p q same = cc (v.indexed.forward i k p, v.indexed.forward j l q)
