-- ===== src/Store/Page.antt =====
-- What store.go promises of a page of `ListKeys`, over the view of a driver.
use keychain.Base.{ℕ, suc, ◌≤◌, String, ◌≡◌, ◌≢◌, ◌⊎◌, true, false, some, List, map}
use keychain.Base.Int.{ℤ, pos, negsuc}
use keychain.Base.{zero, refl}
use keychain.Base.Lists.{All, length}
use keychain.Base.Positions.{Holds}
use keychain.Base.Sorted.{IsSorted}
use keychain.Base.Order.{str_lt}
use keychain.Store.{Key, ListKeysOpts, ListKeysResult}
use keychain.Store.Contract.{View}

-- The key belongs to the API of the options, and to their owner if they name one.
abbrev pub Selected : ListKeysOpts → Key → Type 0
Selected opts k =
    (k.api_id ≡ opts.api_id)
    × ((opts.owner_principal_id ≡ "") ⊎ (k.owner_principal_id ≡ opts.owner_principal_id))

-- The id comes behind the token of the page before.
abbrev pub IsBehind : String → String → Type 0
IsBehind token id = (token ≡ "") ⊎ (str_lt token id ≡ true)

-- The most that a page holds.
abbrev pub limit : ℤ → ℕ
limit (pos (suc n)) = suc n
limit _ = 50

pub limit-pos : (n : ℤ) → (m : ℕ) × (limit n ≡ suc m)
limit-pos (pos zero) = (49, refl)
limit-pos (pos (suc n)) = (n, refl)
limit-pos (negsuc n) = (49, refl)

abbrev pub ids : List Key → List String
ids ks = map (λ k. k.key_id) ks

pub record IsPage (v : View) (opts : ListKeysOpts) (r : ListKeysResult) : Type 0 where
  -- The keys are stored and selected, and come behind the token.
  pub held :
      All
        (λ k. (v.keys k.key_id ≡ some k) × Selected opts k × IsBehind opts.page_token k.key_id)
        r.keys
  pub ordered : IsSorted (ids r.keys)
  pub bounded : length r.keys ≤ limit opts.page_size
  -- Each selected key behind the token is on the page, or the next token says that there is more and
  -- the key comes behind it.
  pub complete :
      (id : String) (k : Key)
      → v.keys id ≡ some k
      → Selected opts k
      → IsBehind opts.page_token id
      → Holds r.keys k ⊎ ((r.next_page_token ≢ "") × (str_lt r.next_page_token id ≡ true))
  -- There is no next token, or the page is full and no id on it comes behind the next token.
  pub ends :
      (r.next_page_token ≡ "")
      ⊎ ((r.next_page_token ≢ "")
          × (length r.keys ≡ limit opts.page_size)
          × All (λ id. str_lt r.next_page_token id ≡ false) (ids r.keys))
