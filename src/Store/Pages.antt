-- ===== src/Store/Pages.antt =====
-- What a client relies on of ListKeys.
use keychain.Base.{◌≡◌, String, some, ok}
use keychain.Store.{Key, ListKeysOpts, ListKeysResult, Store}
use keychain.Store.Contract.{View}
use keychain.Store.Page.{IsPage}

-- Every call of ListKeys succeeds, changes nothing and returns a page.
pub record Paged {S : Type 0} (Valid : S → Type 0) (view : S → View) (st : Store S) : Type 0 where
  pub list_keys :
      (s : S)
      → Valid s
      → (opts : ListKeysOpts)
      → (r : ListKeysResult) × (st.list_keys opts s ≡ (ok r, s)) × IsPage (view s) opts r
  pub label :
      (s : S) → Valid s → (id : String) (k : Key) → (view s).keys id ≡ some k → k.key_id ≡ id
