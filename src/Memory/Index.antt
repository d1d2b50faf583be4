-- ===== src/Memory/Index.antt =====
-- The map of keys and the index by hash agree: each key is found under its own hash, and each entry
-- of the index leads to a key with that hash.
use keychain.Base.{
  String, Bytes, Bytes-Comparable, String-Comparable, bytes_eq_iff, eq_iff, ◌≡◌, ◌≢◌, sym, ap, ◌∙◌,
  true, false, Option-cases, none, some, arith, ◌==◌, Bool-cases, inl, inr,
}
use keychain.Base.Map.{Map, get, put, delete, get-put, get-delete, get-put_self, get-empty}
use keychain.Memory.{taken_by_other}
use mathlib.Core.List.{[]}

pub record Indexed {K : Type 0} (hash_of : K → Bytes) (keys : Map String K)
    (index : Map Bytes String) : Type 0 where
  pub forward : (id : String) (k : K) → get id keys ≡ some k → get (hash_of k) index ≡ some id
  pub backward :
      (h : Bytes) (id : String)
      → get h index ≡ some id
      → (k : K) × (get id keys ≡ some k) × ((hash_of k) ≡ h)

module _ {K : Type 0} {hash_of : K → Bytes} (keys : Map String K) (index : Map Bytes String)
    (x : Indexed hash_of keys index) where
  pub Indexed-insert :
      (id : String) (k : K)
      → get id keys ≡ none
      → get (hash_of k) index ≡ none
      → Indexed hash_of (put id k keys) (put (hash_of k) id index)
  Indexed-insert id k fresh free = record {
    forward = λ j l e. ground (
      arith,
      get-put id j k keys,
      eq_iff id j,
      get-put (hash_of k) (hash_of l) id index,
      bytes_eq_iff (hash_of k) (hash_of l),
      x.forward j l,
    );
    backward = λ h j e. elim (Bool-cases ((hash_of k) == h)) [
      | inl same ↦ (
        k,
        ground (arith, get-put (hash_of k) h id index, get-put_self id k keys),
        (bytes_eq_iff (hash_of k) h).0 same,
      )
      | inr other ↦
          let old = x.backward h j (rw (get-put (hash_of k) h id index, other) at e) in
          (old.0, ground (arith, get-put id j k keys, eq_iff id j), old.2)
    ];
  }

  pub Indexed-update :
      (id : String) (k k' : K)
      → get id keys ≡ some k
      → (hash_of k') ≡ (hash_of k)
      → Indexed hash_of (put id k' keys) index
  Indexed-update id k k' here same = record {
    forward =
        λ j l e. ground (arith, get-put id j k' keys, eq_iff id j, x.forward j l, x.forward id k);
    backward = λ h j e.
        let old = x.backward h j e in
        elim (Bool-cases (id == j)) [
          | inl hit ↦ (k', rw (get-put id j k' keys, hit), ground (arith, eq_iff id j))
          | inr miss ↦ (old.0, rw (get-put id j k' keys, miss) old.1, old.2)
        ];
  }

  -- The index entry of the old hash goes, and the new hash leads to the key.
  pub Indexed-rehash :
      (id : String) (k k' : K)
      → get id keys ≡ some k
      → taken_by_other (get (hash_of k') index) id ≡ false
      → Indexed hash_of (put id k' keys) (put (hash_of k') id (delete (hash_of k) index))
  unfolding taken_by_other
  Indexed-rehash id k k' here free = record {
    forward = λ j l e. ground (
      arith,
      get-put id j k' keys,
      eq_iff id j,
      eq_iff j id,
      get-put (hash_of k') (hash_of l) id (delete (hash_of k) index),
      get-delete (hash_of k) (hash_of l) index,
      bytes_eq_iff (hash_of k') (hash_of l),
      bytes_eq_iff (hash_of k) (hash_of l),
      x.forward j l,
      x.forward id k,
    );
    backward = λ h j e. elim (Bool-cases ((hash_of k') == h)) [
      | inl same ↦ (
        k',
        ground (
          arith,
          get-put (hash_of k') h id (delete (hash_of k) index),
          get-put id j k' keys,
          eq_iff id j,
        ),
        (bytes_eq_iff (hash_of k') h).0 same,
      )
      | inr other ↦
          let kept = rw (get-put (hash_of k') h id (delete (hash_of k) index), other) at e in
          let old = x.backward h j (ground (arith, kept, get-delete (hash_of k) h index)) in
          (
            old.0,
            ground (
              arith,
              kept,
              old.1,
              old.2,
              get-delete (hash_of k) h index,
              bytes_eq_iff (hash_of k) h,
              get-put id j k' keys,
              eq_iff id j,
            ),
            old.2,
          )
    ];
  }

  pub free_of_others :
      (id : String) (h : Bytes)
      → ((j : String) (l : K) → get j keys ≡ some l → id ≢ j → hash_of l ≢ h)
      → taken_by_other (get h index) id ≡ false
  unfolding taken_by_other
  free_of_others id h free = elim (Option-cases (get h index)) [
    | inl e ↦ rw e
    | inr (j, e) ↦
        let (l, stored, same) = x.backward h j e in
        elim (Bool-cases (j == id)) [
          | inl hit ↦ rw (e, hit)
          | inr miss ↦ absurd (free j l stored (λ p. ground (arith, eq_iff j id, sym p)) same)
        ]
  ]

  pub taken_of_other :
      (id : String) (h : Bytes) (j : String) (l : K)
      → get j keys ≡ some l
      → id ≢ j
      → hash_of l ≡ h
      → taken_by_other (get h index) id ≡ true
  unfolding taken_by_other
  taken_of_other id h j l stored other same =
      rw (ap (λ x. get x index) (sym same) ∙ x.forward j l stored)
        (ground (arith, eq_iff j id, λ (p : j ≡ id). other (sym p)))

pub Indexed-empty : {K : Type 0} (hash_of : K → Bytes) → Indexed hash_of [] []
Indexed-empty {K} hash_of = record {
  forward = λ id k e. cc (get-empty {V = K} id);
  backward = λ h id e. cc (get-empty {V = String} h);
}
