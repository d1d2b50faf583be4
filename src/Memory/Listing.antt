-- ===== src/Memory/Listing.antt =====
-- What the pages of `ListKeys` hold, together and in order.
use mathlib.Core.List.{Mem, mem-cons_self, mem-cons_of_mem}
use mathlib.Core.List.Perm
use keychain.Base.{
  ℕ, ◌<◌, String, String-Comparable, ◌≡◌, refl, ◌∙◌, ap, true, none, some, List, [], ◌∷◌, map,
  arith, inl, inr, Bool-cases, ◌==◌, eq_iff,
}
use keychain.Base.Lists.{All, All-map, length, sort_strings}
use keychain.Base.Map.{Map, get, IsDistinct}
use keychain.Base.Sorted.{
  IsSorted, Differ, sort_strings-All, sort_strings-IsSorted, sort_strings-perm, length-sort,
}
use keychain.Store.{Key, ListKeysOpts}
use keychain.Store.Page.{Selected}
use keychain.Memory.{Memory}
use keychain.Memory.Page.{page_start, matches, matching_ids}
use keychain.Memory.Walk.{list_all, list_all-From, stored_key}
use keychain.Memory.Invariant.{IsValid}

pub matches-Selected : (opts : ListKeysOpts) (k : Key) → matches opts k ≡ true → Selected opts k
unfolding matches
matches-Selected opts k h = ground (
  arith,
  eq_iff k.api_id opts.api_id,
  eq_iff opts.owner_principal_id "",
  eq_iff k.owner_principal_id opts.owner_principal_id,
)

pub Selected-matches : (opts : ListKeysOpts) (k : Key) → Selected opts k → matches opts k ≡ true
unfolding matches
Selected-matches opts k h = ground (
  arith,
  eq_iff k.api_id opts.api_id,
  eq_iff opts.owner_principal_id "",
  eq_iff k.owner_principal_id opts.owner_principal_id,
)

-- A selected key is stored under the id.
abbrev pub Stores : ListKeysOpts → Map String Key → String → Type 0
Stores opts keys id = (k : Key) × (get id keys ≡ some k) × (matches opts k ≡ true)

Stores-cons :
    (opts : ListKeysOpts) (j : String) (l : Key) (keys : Map String Key)
    → get j keys ≡ none
    → (id : String) → Stores opts keys id
    → Stores opts ((j, l) ∷ keys) id
unfolding get
Stores-cons opts j l keys absent id (k, e, h) = (k, ground (arith, eq_iff j id), h)

pub matching_ids-All :
    (opts : ListKeysOpts) (keys : Map String Key)
    → IsDistinct keys
    → All (Stores opts keys) (matching_ids opts keys)
unfolding matching_ids get
matching_ids-All opts [] d = tt
matching_ids-All opts ((j, l) ∷ keys) d =
    let rest =
      All-map (matching_ids opts keys) (Stores-cons opts j l keys d.0)
        (matching_ids-All opts keys d.1) in
    elim (Bool-cases (matches opts l)) [
      | inl hit ↦ rw hit ((l, rw ((eq_iff j j).1 refl), hit), rest)
      | inr miss ↦ rw miss rest
    ]

pub matching_ids-Differ :
    (opts : ListKeysOpts) (keys : Map String Key)
    → IsDistinct keys
    → Differ (matching_ids opts keys)
unfolding matching_ids
matching_ids-Differ opts [] d = tt
matching_ids-Differ opts ((j, l) ∷ keys) d = elim (Bool-cases (matches opts l)) [
  | inl hit ↦ rw hit (
    All-map (matching_ids opts keys) (λ id s e. cc (s.1, d.0, ap (λ x. get x keys) e))
        (matching_ids-All opts keys d.1),
    matching_ids-Differ opts keys d.1,
  )
  | inr miss ↦ rw miss (matching_ids-Differ opts keys d.1)
]

pub matching_ids-Mem :
    (opts : ListKeysOpts) (keys : Map String Key) (id : String) (k : Key)
    → get id keys ≡ some k
    → matches opts k ≡ true
    → Mem id (matching_ids opts keys)
unfolding matching_ids get
matching_ids-Mem opts [] id k e h = cc
matching_ids-Mem opts ((j, l) ∷ keys) id k e h = elim (Bool-cases (j == id)) [
  | inl hit ↦
      let same : l ≡ k = cc (rw hit at e) in
      let also : matches opts l ≡ true = ap (matches opts) same ∙ h in
      rw also (rw (← (eq_iff j id).0 hit) mem-cons_self)
  | inr miss ↦ elim (Bool-cases (matches opts l)) [
    | inl also ↦ rw also (mem-cons_of_mem j (matching_ids-Mem opts keys id k (rw miss at e) h))
    | inr other ↦ rw other (matching_ids-Mem opts keys id k (rw miss at e) h)
  ]
]

module _ (m : Memory) (v : IsValid m) (opts : ListKeysOpts) where
  -- The pages of one walk.
  pub record Listing (keys : List Key) : Type 0 where
    pub ids : List String
    pub listed : keys ≡ map (stored_key m) ids
    pub sorted : IsSorted ids
    pub only : All (λ id. (k : Key) × (get id m.keys ≡ some k) × Selected opts k) ids
    pub every : (id : String) (k : Key) → get id m.keys ≡ some k → Selected opts k → Mem id ids

  -- On a valid state, following the page tokens of ListKeys from the empty one, with more rounds
  -- than there are selected keys, ends and gives over all pages each key of the API (and of the
  -- owner, if one is named) exactly once, in the order of the ids, and no other key, whatever the
  -- page size.
  pub list_all-Listing :
      (f : ℕ)
      → opts.page_token ≡ ""
      → length (matching_ids opts m.keys) < f
      → (keys : List Key) × (list_all f opts m ≡ some keys) × Listing keys
  unfolding page_start
  list_all-Listing f first fuel = (
    map (stored_key m) ids,
    list_all-From m f opts [] ids
        (record {
          ids = refl;
          start = rw first;
          sorted = sorted;
          named = All-map ids (λ id s. v.named id s.0 s.1) stores;
        })
        (omega (arith, fuel, length-sort (matching_ids opts m.keys))),
    record {
      ids = ids;
      listed = refl;
      sorted = sorted;
      only = All-map ids (λ id s. (s.0, s.1, matches-Selected opts s.0 s.2)) stores;
      every = λ id k e h.
          (Perm.mem_iff (sort_strings-perm (matching_ids opts m.keys))).1
            (matching_ids-Mem opts m.keys id k e (Selected-matches opts k h));
    },
  )
    where
      ids : List String
      ids = sort_strings (matching_ids opts m.keys)

      sorted : IsSorted ids
      sorted =
          sort_strings-IsSorted (matching_ids opts m.keys)
            (matching_ids-Differ opts m.keys v.distinct)

      stores : All (Stores opts m.keys) ids
      stores =
          sort_strings-All (Stores opts m.keys) (matching_ids opts m.keys)
            (matching_ids-All opts m.keys v.distinct)
