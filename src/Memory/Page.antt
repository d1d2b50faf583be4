-- ===== src/Memory/Page.antt =====
-- `ListKeys` of memory.go.
use keychain.Base.{
  ℕ, zero, suc, ◌+◌, String, Bool, false, not, ◌&&◌, Option, none, some, List, [], ◌∷◌, map, ok,
  err, Action, ◌==◌, if◌then◌else◌, ltb, String-Comparable,
}
use keychain.Base.Map.{Map}
use keychain.Base.Int.{ℤ, pos}
use keychain.Base.Lists.{length, get_elem?, slice, sort_strings, search_strings}
use keychain.Store.{Err, opaque, Key, ListKeysOpts, ListKeysResult}
use keychain.Memory.{Memory, clone_key, key_at}

-- Neither `continue` of the loop is taken.
unfoldable pub matches : ListKeysOpts → Key → Bool
matches opts k =
    k.api_id == opts.api_id
    && not (
        not (opts.owner_principal_id == "")
        && not (k.owner_principal_id == opts.owner_principal_id))

unfoldable pub matching_ids : ListKeysOpts → Map String Key → List String
unfolding matches
matching_ids opts [] = []
matching_ids opts ((id, k) ∷ entries) =
    let rest = matching_ids opts entries in if matches opts k then id ∷ rest else rest

-- ids[i] == token, for an index in range
abbrev pub at_token : Option String → String → Bool
at_token none token = false
at_token (some id) token = id == token

unfoldable pub page_start : List String → String → ℕ
page_start ids token =
    if token == ""
    then 0
    else (let i = search_strings ids token in
        if ltb i (length ids) && at_token (get_elem? ids i) token then i + 1 else i)

unfoldable pub page_limit : ℤ → ℕ
page_limit (pos (suc n)) = suc n
page_limit _ = 50

unfoldable pub page_end : List String → ℕ → ℕ → ℕ
page_end ids start size = let end = start + size in if ltb (length ids) end then length ids else end

-- ids[end-1]; `none` where Go panics
abbrev pub elem_before : List String → ℕ → Option String
elem_before ids zero = none
elem_before ids (suc i) = get_elem? ids i

-- The token of the next page; `none` where Go panics.
unfoldable pub next_token : List String → ℕ → Option String
next_token ids end = if ltb end (length ids) then elem_before ids end else some ""

-- The ids of the page and the token of the next one.
unfoldable pub page_between : List String → ℕ → ℕ → Option (List String × String)
page_between ids start end = elim (slice ids start end) [
  | none ↦ none
  | some out ↦ elim (next_token ids end) [ none ↦ none | some next ↦ some (out, next) ]
]

-- The page that the sorted ids and the options select.
unfoldable pub page : List String → String → ℤ → Option (List String × String)
page ids token size =
    let start = page_start ids token in
    page_between ids start (page_end ids start (page_limit size))

unfoldable pub list_keys : ListKeysOpts → Action Memory Err ListKeysResult
list_keys opts m =
    elim (page (sort_strings (matching_ids opts m.keys)) opts.page_token opts.page_size) [
      | none ↦ (err (opaque "slice bounds out of range"), m)
      | some (ids, next) ↦ (
        ok (record { keys = map (λ id. clone_key (key_at id m)) ids; next_page_token = next }),
        m,
      )
    ]
