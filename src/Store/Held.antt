-- ===== src/Store/Held.antt =====
-- A view after one more key.
use keychain.Base.{
  ◌≡◌, ◌≢◌, refl, subst, String, Bytes, some, String-Comparable, equal_refl, equal_ne, ◌==◌,
  Bool-cases, inl, inr, eq_iff,
}
use keychain.Store.{Key}
use keychain.Store.Contract.{View, HashUnused, HashFree, with_key}

-- A view with one more key.
module _ (v : View) (id : String) (k : Key) where
  pub with_key-held : (with_key id k v).keys id ≡ some k
  with_key-held = rw (equal_refl id) refl

  pub with_key-other : (j : String) → id ≢ j → (with_key id k v).keys j ≡ v.keys j
  with_key-other j ne = rw (equal_ne id j ne) refl

  pub with_key-HashUnused :
      (h : Bytes) → HashFree v id h → k.key_hash ≢ h → HashUnused (with_key id k v) h
  with_key-HashUnused h free ne j l e = elim (Bool-cases (id == j)) [
    | inl hit ↦
        let e' : some k ≡ some l = rw hit at e in
        let same : k ≡ l = cc e' in subst (λ (l : Key). l.key_hash ≢ h) same ne
    | inr miss ↦ free j l (rw miss at e) (λ same. cc (miss, (eq_iff id j).1 same))
  ]

  pub with_key-HashFree : (h : Bytes) → HashUnused v h → HashFree (with_key id k v) id h
  with_key-HashFree h unused j l e ne = unused j l (rw (equal_ne id j ne) at e)
