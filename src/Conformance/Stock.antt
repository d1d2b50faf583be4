-- ===== src/Conformance/Stock.antt =====
-- The store after a test has created keys one after the other, and what ListKeys enumerates of it.
use keychain.Base.{
  ℕ, zero, suc, ◌+◌, ◌<◌, ◌≤◌, ◌≡◌, ◌≢◌, refl, subst, String, String-Comparable, none, some, [],
  ◌∷◌, arith, Bool-cases, inl, inr, ◌==◌, equal_ne,
}
use keychain.Base.Lists.{length, sort_strings}
use keychain.Base.Map.{Map, get, IsDistinct}
use keychain.Store.{Workspace, Api, Key, ListKeysOpts, Store, new_id}
use keychain.Conformance.Law.{Law}
use keychain.Store.Contract.{View, Precision, HashUnused, kept_key, stamped_key}
use keychain.Store.Page.{Selected}
use keychain.Store.Enumeration.{Enumerates}
use keychain.Memory.Enumeration.{map-Enumerates}
use keychain.Memory.Page.{matches, matching_ids}
use keychain.Memory.Listing.{matches-Selected, Selected-matches}
use keychain.Conformance.{Surroundings}
use keychain.Conformance.Steps.{Leads}
use keychain.Conformance.Calls.{lead_create_key}
use keychain.Store.Ids.{new_id-ne}
use keychain.Conformance.Seeds.{Suits}

module _ (p : Precision) (env : Surroundings) (base : ℕ) (key : ℕ → Key) where
  abbrev pub stock_id : ℕ → String
  stock_id i = new_id "key" (env.stamps (base + i))

  abbrev pub stored : ℕ → Key
  stored i = kept_key p (stamped_key (env.stamps (base + i)) (key i))

  -- The first keys, the last of them at the head.
  abbrev pub entries : ℕ → Map String Key
  entries zero = []
  entries (suc i) = (stock_id i, stored i) ∷ entries i

  -- A view with these keys and no other.
  abbrev pub stock : View → ℕ → View
  stock v n = record v { keys = λ id. get id (entries n) }

  module _ (opts : ListKeysOpts) (n : ℕ) where
    -- Whether the next key counts for a listing.
    pub entries-hit :
        Selected opts (stored n)
        → length (matching_ids opts (entries (suc n)))
          ≡ suc (length (matching_ids opts (entries n)))
    unfolding matching_ids
    entries-hit sel = rw (Selected-matches opts (stored n) sel) refl

    pub entries-miss :
        (Selected opts (stored n) → ⊥)
        → length (matching_ids opts (entries (suc n))) ≡ length (matching_ids opts (entries n))
    unfolding matching_ids
    entries-miss other = elim (Bool-cases (matches opts (stored n))) [
      | inl hit ↦ absurd (other (matches-Selected opts (stored n) hit))
      | inr miss ↦ rw miss refl
    ]

  module _ (suits : Suits p env) where
    pub entries-fresh : (n i : ℕ) → n ≤ i → get (stock_id i) (entries n) ≡ none
    unfolding get
    entries-fresh zero i le = refl
    entries-fresh (suc n) i le =
        rw
          (equal_ne (stock_id n) (stock_id i) (
            new_id-ne "key" (env.stamps (base + n)) (env.stamps (base + i))
              (suits.differ (base + n) (base + i) (omega (arith, le)))))
          (entries-fresh n i (omega (arith, le)))

    pub entries-IsDistinct : (n : ℕ) → IsDistinct (entries n)
    entries-IsDistinct zero = tt
    entries-IsDistinct (suc n) = (entries-fresh n n (omega arith), entries-IsDistinct n)

  module _ (differ : (i j : ℕ) → i < j → (key i).key_hash ≢ (key j).key_hash) where
    stock-HashUnused : (v : View) (n i : ℕ) → n ≤ i → HashUnused (stock v n) (key i).key_hash
    unfolding get
    stock-HashUnused v zero i le j l e = cc e
    stock-HashUnused v (suc n) i le j l e = elim (Bool-cases (stock_id n == j)) [
      | inl hit ↦
          let e' : some (stored n) ≡ some l = rw hit at e in
          let same : stored n ≡ l = cc e' in
          subst (λ (l : Key). l.key_hash ≢ (key i).key_hash) same (differ n i (omega (arith, le)))
      | inr miss ↦ stock-HashUnused v n i (omega (arith, le)) j l (rw miss at e)
    ]

    -- The next key is created.
    pub lead_stock :
        {S : Type 0} {Valid : S → Type 0} {view : S → View} {st : Store S}
        (law : Law Valid view p st) (suits : Suits p env) (v : View) (n : ℕ) (a : Api)
        (w : Workspace)
        → v.apis (key n).api_id ≡ some a
        → v.workspaces (key n).workspace_id ≡ some w
        → Leads Valid view
            (stock v n)
            (st.create_key (env.stamps (base + n)) (key n))
            (stamped_key (env.stamps (base + n)) (key n))
            (stock v (suc n))
    unfolding get
    lead_stock law suits v n a w parent owner =
        lead_create_key law (env.stamps (base + n)) (key n) a w parent owner
          (entries-fresh suits n n (omega arith)) (stock-HashUnused v n n (omega arith))

  pub stock-Enumerates :
      (v : View) (n : ℕ) (opts : ListKeysOpts)
      → Suits p env
      → opts.page_token ≡ ""
      → Enumerates (stock v n) opts (sort_strings (matching_ids opts (entries n)))
  stock-Enumerates v n opts suits first =
      map-Enumerates (stock v n) (entries n) opts (entries-IsDistinct suits n) refl first
