-- ===== src/Memory/Invariant.antt =====
-- The invariant of the in-memory store, kept by every operation.
use keychain.Base.{
  String, Bytes, Bytes-Comparable, String-Comparable, eq_iff, ◌≡◌, ◌≢◌, refl, sym, ◌∙◌, subst, none,
  some, arith, ◌==◌, Bool-cases, Option-cases, inl, inr,
}
use keychain.Base.Map.{Map, get, put, get-put, get-put-some, get-empty, IsDistinct, put-IsDistinct}
use text.Mathlib.TextLemmas.{append-eq-nil_iff}
use keychain.Base.Int.{is_neg, is_zero}
use keychain.Store.{Stamp, new_id, Workspace, Api, Key, Time}
use keychain.Memory.{
  Memory, new, create_workspace, create_api, create_key, revoke_key, rotate_key, rehash,
  touch_last_verified, decrement_remaining_uses, set_key, taken_by_other,
}
use keychain.Memory.Clone.{clone_workspace_lem, clone_api_lem, clone_key_lem}
use keychain.Memory.Index.{Indexed, Indexed-insert, Indexed-update, Indexed-rehash, Indexed-empty}

-- Each record is stored under its own id.
pub record Labelled (m : Memory) : Type 0 where
  pub workspace : (id : String) (w : Workspace) → get id m.workspaces ≡ some w → w.workspace_id ≡ id
  pub api : (id : String) (a : Api) → get id m.apis ≡ some a → a.api_id ≡ id
  pub key : (id : String) (k : Key) → get id m.keys ≡ some k → k.key_id ≡ id

-- Each record's parent exists.
pub record Parented (m : Memory) : Type 0 where
  pub api :
      (id : String) (a : Api)
      → get id m.apis ≡ some a
      → (w : Workspace) × (get a.workspace_id m.workspaces ≡ some w)
  pub key :
      (id : String) (k : Key) → get id m.keys ≡ some k → (a : Api) × (get k.api_id m.apis ≡ some a)

abbrev pub hash_of : Key → Bytes
hash_of k = k.key_hash

pub record IsValid (m : Memory) : Type 0 where
  pub labelled : Labelled m
  pub parented : Parented m
  pub indexed : Indexed hash_of m.keys m.hash_index
  pub distinct : IsDistinct m.keys
  pub named : (id : String) (k : Key) → get id m.keys ≡ some k → id ≢ ""

pub new-IsValid : IsValid new
new-IsValid = record {
  labelled = record {
    workspace = λ id w e. cc (get-empty {V = Workspace} id);
    api = λ id a e. cc (get-empty {V = Api} id);
    key = λ id k e. cc (get-empty {V = Key} id);
  };
  parented = record {
    api = λ id a e. cc (get-empty {V = Api} id);
    key = λ id k e. cc (get-empty {V = Key} id);
  };
  indexed = Indexed-empty hash_of;
  distinct = tt;
  named = λ id k e. cc (get-empty {V = Key} id);
}

new_id-ne-empty : (s : Stamp) → new_id "key" s ≢ ""
new_id-ne-empty s e = cc (((append-eq-nil_iff).0 e).0)

module _ (m : Memory) (v : IsValid m) where
  put_workspace-IsValid :
      (w : Workspace) → IsValid (record m { workspaces = put w.workspace_id w m.workspaces })
  put_workspace-IsValid w = record {
    labelled = record {
      workspace = λ id u e. ground (
        arith,
        get-put w.workspace_id id w m.workspaces,
        eq_iff w.workspace_id id,
        v.labelled.workspace id u,
      );
      api = v.labelled.api;
      key = v.labelled.key;
    };
    parented = record {
      api = λ id a e.
          let (p, found) = v.parented.api id a e in
          get-put-some w.workspace_id a.workspace_id p w m.workspaces found;
      key = v.parented.key;
    };
    indexed = v.indexed;
    distinct = v.distinct;
    named = v.named;
  }

  put_api-IsValid :
      (a : Api) (w : Workspace)
      → get a.workspace_id m.workspaces ≡ some w
      → IsValid (record m { apis = put a.api_id a m.apis })
  put_api-IsValid a w e = record {
    labelled = record {
      workspace = v.labelled.workspace;
      api = λ id b h.
          ground (arith, get-put a.api_id id a m.apis, eq_iff a.api_id id, v.labelled.api id b);
      key = v.labelled.key;
    };
    parented = record {
      api = λ id b h. elim (Bool-cases (a.api_id == id)) [
        | inl hit ↦ (w, ground (arith, get-put a.api_id id a m.apis))
        | inr miss ↦ v.parented.api id b (ground (arith, get-put a.api_id id a m.apis))
      ];
      key = λ id k h.
          let (p, found) = v.parented.key id k h in get-put-some a.api_id k.api_id p a m.apis found;
    };
    indexed = v.indexed;
    distinct = v.distinct;
    named = v.named;
  }

  -- A key written under its own id, with an index that fits.
  put_key-IsValid :
      (k : Key) (index : Map Bytes String) (a : Api)
      → k.key_id ≢ ""
      → get k.api_id m.apis ≡ some a
      → Indexed hash_of (put k.key_id k m.keys) index
      → IsValid (record m { keys = put k.key_id k m.keys; hash_index = index })
  put_key-IsValid k index a nonempty parent x = record {
    labelled = record {
      workspace = v.labelled.workspace;
      api = v.labelled.api;
      key = λ id l h.
          ground (arith, get-put k.key_id id k m.keys, eq_iff k.key_id id, v.labelled.key id l);
    };
    parented = record {
      api = v.parented.api;
      key = λ id l h. elim (Bool-cases (k.key_id == id)) [
        | inl hit ↦ (a, ground (arith, get-put k.key_id id k m.keys))
        | inr miss ↦ v.parented.key id l (ground (arith, get-put k.key_id id k m.keys))
      ];
    };
    indexed = x;
    distinct = put-IsDistinct k.key_id k m.keys v.distinct;
    named = λ id l h. elim (Bool-cases (k.key_id == id)) [
      | inl hit ↦ rw (← (eq_iff k.key_id id).0 hit) nonempty
      | inr miss ↦ v.named id l (ground (arith, get-put k.key_id id k m.keys))
    ];
  }

  -- An update of a key that keeps its identity and its API, with an index that fits.
  replace_key-IsValid :
      (id : String) (k k' : Key) (index : Map Bytes String)
      → get id m.keys ≡ some k
      → k'.key_id ≡ k.key_id
      → k'.api_id ≡ k.api_id
      → Indexed hash_of (put id k' m.keys) index
      → IsValid (record m { keys = put id k' m.keys; hash_index = index })
  replace_key-IsValid id k k' index here same_id same_api x =
      let (a, parent) = v.parented.key id k here in
      subst (λ j. IsValid (record m { keys = put j k' m.keys; hash_index = index })) label
        (put_key-IsValid k' index a (subst (λ j. j ≢ "") (sym label) (v.named id k here))
          (rw same_api parent) (subst (λ j. Indexed hash_of (put j k' m.keys) index) (sym label) x))
    where
      label : k'.key_id ≡ id
      label = same_id ∙ v.labelled.key id k here

  set_key-IsValid :
      (id : String) (k k' : Key)
      → get id m.keys ≡ some k
      → k'.key_id ≡ k.key_id
      → k'.api_id ≡ k.api_id
      → k'.key_hash ≡ k.key_hash
      → IsValid (set_key k' id m)
  unfolding set_key
  set_key-IsValid id k k' here same_id same_api same_hash =
      replace_key-IsValid id k k' m.hash_index here same_id same_api
        (Indexed-update m.keys m.hash_index v.indexed id k k' here same_hash)

  pub create_workspace-IsValid : (s : Stamp) (w : Workspace) → IsValid (create_workspace s w m).1
  unfolding create_workspace
  create_workspace-IsValid s w = simp clone_workspace_lem (put_workspace-IsValid _)

  pub create_api-IsValid : (s : Stamp) (a : Api) → IsValid (create_api s a m).1
  unfolding create_api
  create_api-IsValid s a = elim (Option-cases (get a.workspace_id m.workspaces)) [
    | inl e ↦ rw (e, create_api) v
    | inr (w, e) ↦ rw (e, create_api) (simp clone_api_lem (put_api-IsValid _ w e))
  ]

  pub create_key-IsValid :
      (s : Stamp) (k : Key) → get (new_id "key" s) m.keys ≡ none → IsValid (create_key s k m).1
  unfolding create_key
  create_key-IsValid s k fresh = elim (Option-cases (get k.api_id m.apis)) [
    | inl e ↦ rw (e, create_key) v
    | inr (a, e) ↦ elim (Option-cases (get k.key_hash m.hash_index)) [
      | inr (j, taken) ↦ rw (e, taken, create_key) v
      | inl free ↦
          rw (e, free, create_key)
            (simp clone_key_lem (
              put_key-IsValid _ _ a (new_id-ne-empty s) e
                (Indexed-insert m.keys m.hash_index v.indexed _ _ fresh free)))
    ]
  ]

  pub revoke_key-IsValid : (s : Stamp) (id : String) → IsValid (revoke_key s id m).1
  unfolding revoke_key
  revoke_key-IsValid s id = elim (Option-cases (get id m.keys)) [
    | inl e ↦ rw (e, revoke_key) v
    | inr (k, e) ↦ elim (Bool-cases k.enabled) [
      | inl on ↦ rw (e, on, revoke_key) (set_key-IsValid id k _ e refl refl refl)
      | inr off ↦ rw (e, off, revoke_key) v
    ]
  ]

  pub touch_last_verified-IsValid :
      (id : String) (at : Time) → IsValid (touch_last_verified id at m).1
  unfolding touch_last_verified
  touch_last_verified-IsValid id at = elim (Option-cases (get id m.keys)) [
    | inl e ↦ rw (e, touch_last_verified) v
    | inr (k, e) ↦ rw (e, touch_last_verified) (set_key-IsValid id k _ e refl refl refl)
  ]

  pub decrement-IsValid : (s : Stamp) (id : String) → IsValid (decrement_remaining_uses s id m).1
  unfolding decrement_remaining_uses
  decrement-IsValid s id = elim (Option-cases (get id m.keys)) [
    | inl e ↦ rw (e, decrement_remaining_uses) v
    | inr (k, e) ↦ elim (Bool-cases (is_neg k.remaining_uses)) [
      | inl unlimited ↦ rw (e, unlimited, decrement_remaining_uses) v
      | inr capped ↦ elim (Bool-cases (is_zero k.remaining_uses)) [
        | inl spent ↦ rw (e, capped, spent, decrement_remaining_uses) v
        | inr left ↦
            rw (e, capped, left, decrement_remaining_uses) (set_key-IsValid id k _ e refl refl refl)
      ]
    ]
  ]

  pub rotate_key-IsValid : (s : Stamp) (id : String) (h : Bytes) → IsValid (rotate_key s id h m).1
  unfolding rotate_key rehash
  rotate_key-IsValid s id h = elim (Option-cases (get id m.keys)) [
    | inl e ↦ rw (e, rotate_key) v
    | inr (k, e) ↦ elim (Bool-cases (taken_by_other (get h m.hash_index) id)) [
      | inl taken ↦ rw (e, taken, rotate_key) v
      | inr free ↦
          rw (e, free, rotate_key)
            (replace_key-IsValid id k _ _ e refl refl
              (Indexed-rehash m.keys m.hash_index v.indexed id k _ e free))
    ]
  ]
