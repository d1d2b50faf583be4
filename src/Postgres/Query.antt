-- ===== src/Postgres/Query.antt =====
-- What the Postgres driver relies on for the query of `ListKeys`, as Engine does for the other
-- statements. The order of the ids is that of their bytes, as the collation "C" has it.
use keychain.Base.{String, String-Comparable, ◌≡◌, ◌⊎◌, true, none, some, List, ok}
use keychain.Store.{ListKeysOpts}
use keychain.Store.Page.{IsBehind}
use keychain.Base.{map, ◌≤◌, ℕ}
use keychain.Base.Lists.{All, length}
use keychain.Base.Positions.{Holds}
use keychain.Base.Sorted.{IsSorted}
use keychain.Base.Order.{str_lt}
use keychain.Postgres.Codec.{KeyRow}
use keychain.Postgres.Sql.{Pool}
use keychain.Postgres.Engine.{Tables}

-- The conditions of the query on the API and on the owner.
abbrev pub SelectedRow : ListKeysOpts → KeyRow → Type 0
SelectedRow opts r =
    (r.api_id ≡ opts.api_id)
    × ((opts.owner_principal_id ≡ "") ⊎ (r.owner_principal_id ≡ opts.owner_principal_id))

-- The rows of the query of `ListKeys`: those of the WHERE clause in the order of their ids, up to
-- the limit.
pub record Answered {D : Type 0} (tables : D → Tables) (pool : Pool D) (d : D) (opts : ListKeysOpts)
    (n : ℕ) : Type 0 where
  pub rows : List KeyRow
  pub answer :
      pool.select_page opts.api_id opts.owner_principal_id opts.page_token n d
      ≡ (ok (record { scans = map ok rows; ended = none }), d)
  pub selected :
      All
        (λ r.
          ((tables d).keys r.key_id ≡ some r)
          × SelectedRow opts r
          × IsBehind opts.page_token r.key_id)
        rows
  pub ordered : IsSorted (map (λ r. r.key_id) rows)
  pub bounded : length rows ≤ n
  pub complete :
      (id : String) (r : KeyRow)
      → (tables d).keys id ≡ some r
      → SelectedRow opts r
      → IsBehind opts.page_token id
      → Holds rows r ⊎ ((length rows ≡ n) × All (λ q. str_lt q.key_id id ≡ true) rows)
