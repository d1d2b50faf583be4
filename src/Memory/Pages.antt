-- ===== src/Memory/Pages.antt =====
-- A page of `ListKeys` of memory.go keeps the promise of store.go.
use mathlib.Core.List.{append_assoc}
use mathlib.Core.List.Perm
use keychain.Base.{
  zero, suc, ◌≤◌, String, String-Comparable, ◌≡◌, ◌≢◌, inl, inr, refl, sym, ap, subst, ◌∙◌, true,
  false, some, List, [], ◌∷◌, ◌++◌, map, ok, arith, Bool-cases, leb,
}
use keychain.Base.Int.{ℤ, pos, negsuc}
use keychain.Base.Lists.{All, length, get_elem?, sort_strings, length-append}
use keychain.Base.Map.{get}
use keychain.Base.Order.{str_lt}
use keychain.Base.Positions.{Holds, map-at, All-at}
use keychain.Base.Sorted.{
  IsSorted, IsSorted-last, sort_strings-All, sort_strings-IsSorted, sort_strings-perm,
}
use keychain.Store.{Key, ListKeysOpts, ListKeysResult}
use keychain.Store.Page.{IsPage, Selected, IsBehind, limit, limit-pos, ids}
use keychain.Memory.{Memory, key_at}
use keychain.Memory.Clone.{clone_key_lem}
use keychain.Memory.Driver.{view, driver}
use keychain.Store.Pages.{Paged}
use keychain.Memory.Invariant.{IsValid}
use keychain.Memory.Page.{page, page_start, page_limit, matching_ids, list_keys}
use keychain.Memory.Paging.{page_last, page_more}
use keychain.Memory.Walk.{list_keys-page, split_page, stored_key}
use keychain.Memory.Listing.{
  Stores, matching_ids-All, matching_ids-Differ, matching_ids-Mem, matches-Selected,
  Selected-matches,
}
use keychain.Base.Extent.{All-append, IsSorted-append, Holds-append}
use keychain.Memory.Split.{Mem-Holds, Split, page_start-Split}

page_limit-limit : (n : ℤ) → page_limit n ≡ limit n
unfolding page_limit
page_limit-limit (pos zero) = refl
page_limit-limit (pos (suc n)) = refl
page_limit-limit (negsuc n) = refl

stored_key-lem : (m : Memory) (id : String) (k : Key) → get id m.keys ≡ some k → stored_key m id ≡ k
unfolding key_at
stored_key-lem m id k e = rw (e, key_at) (simp clone_key_lem)

module _ (m : Memory) (v : IsValid m) (opts : ListKeysOpts) where
  abbrev sorted_ids : List String
  sorted_ids = sort_strings (matching_ids opts m.keys)

  sorted : IsSorted sorted_ids
  sorted =
      sort_strings-IsSorted (matching_ids opts m.keys) (matching_ids-Differ opts m.keys v.distinct)

  stores : All (Stores opts m.keys) sorted_ids
  stores =
      sort_strings-All (Stores opts m.keys) (matching_ids opts m.keys)
        (matching_ids-All opts m.keys v.distinct)

  abbrev KeyHeld : Key → Type 0
  KeyHeld k = (get k.key_id m.keys ≡ some k) × Selected opts k × IsBehind opts.page_token k.key_id

  stored-KeyHeld :
      (id : String)
      → Stores opts m.keys id
      → IsBehind opts.page_token id
      → KeyHeld (stored_key m id)
  stored-KeyHeld id (k, e, h) behind =
      let label = v.labelled.key id k e in
      subst KeyHeld (sym (stored_key-lem m id k e)) (
        subst (λ j. get j m.keys ≡ some k) (sym label) e,
        matches-Selected opts k h,
        subst (IsBehind opts.page_token) (sym label) behind,
      )

  page_held :
      (xs : List String)
      → All (Stores opts m.keys) xs
      → All (IsBehind opts.page_token) xs
      → All KeyHeld (map (stored_key m) xs)
  page_held [] h b = tt
  page_held (x ∷ xs) h b = (stored-KeyHeld x h.0 b.0, page_held xs h.1 b.1)

  page_ids : (xs : List String) → All (Stores opts m.keys) xs → ids (map (stored_key m) xs) ≡ xs
  page_ids [] h = refl
  page_ids (x ∷ xs) h =
      let (k, e, _) = h.0 in
      let same = ap (λ k. k.key_id) (stored_key-lem m x k e) ∙ v.labelled.key x k e in
      λ i. same i ∷ page_ids xs h.1 i

  page_length : (xs : List String) → length (map (stored_key m) xs) ≡ length xs
  page_length [] = refl
  page_length (x ∷ xs) = ap suc (page_length xs)

  page_holds :
      (xs : List String) (id : String) (k : Key)
      → get id m.keys ≡ some k
      → Holds xs id
      → Holds (map (stored_key m) xs) k
  page_holds xs id k e (i, at) =
      (i, map-at (stored_key m) i xs id at ∙ ap some (stored_key-lem m id k e))

  abbrev start : Split opts.page_token sorted_ids
  start = page_start-Split opts.page_token sorted_ids sorted

  -- A selected key behind the token is at the start of the page or later.
  post_holds :
      (id : String) (k : Key)
      → get id m.keys ≡ some k
      → Selected opts k
      → IsBehind opts.page_token id
      → Holds start.post id
  post_holds id k e sel behind =
      let mem =
        (Perm.mem_iff (sort_strings-perm (matching_ids opts m.keys))).1
          (matching_ids-Mem opts m.keys id k e (Selected-matches opts k sel)) in
      let (i, at) = Mem-Holds id sorted_ids mem in
      elim (Holds-append start.pre start.post id
        (i, ap (λ ss. get_elem? ss i) (sym start.whole) ∙ at)) [
          | inl (j, early) ↦
              let (given, ge) =
                All-at (λ s. (opts.page_token ≢ "") × (str_lt opts.page_token s ≡ false)) start.pre
                  j id start.before early in
              elim behind [ inl blank ↦ absurd (given blank) | inr lt ↦ cc (lt, ge) ]
          | inr h ↦ h
        ]

  post-Stores : All (Stores opts m.keys) start.post
  post-Stores =
      (All-append (Stores opts m.keys) start.pre start.post
        (subst (All (Stores opts m.keys)) start.whole stores)).1

  post-IsSorted : IsSorted start.post
  post-IsSorted = (IsSorted-append start.pre start.post (subst IsSorted start.whole sorted)).1

  last-IsPage :
      length start.post ≤ limit opts.page_size
      → IsPage (view m) opts (record { keys = map (stored_key m) start.post; next_page_token = "" })
  last-IsPage short = record {
    held = page_held start.post post-Stores start.behind;
    ordered = subst IsSorted (sym (page_ids start.post post-Stores)) post-IsSorted;
    bounded = omega (arith, short, page_length start.post);
    complete =
        λ id k e sel behind. inl (page_holds start.post id k e (post_holds id k e sel behind));
    ends = inl refl;
  }

  more-IsPage :
      (q : List String) (t u : String) (rest : List String)
      → start.post ≡ q ++ t ∷ u ∷ rest
      → suc (length q) ≡ limit opts.page_size
      → IsPage
          (view m)
          opts
          (record { keys = map (stored_key m) (q ++ t ∷ []); next_page_token = t })
  more-IsPage q t u rest e full =
      let e' = e ∙ sym (append_assoc q (t ∷ []) (u ∷ rest)) in
      let (stores_page, _) =
        All-append (Stores opts m.keys) (q ++ t ∷ []) (u ∷ rest)
          (subst (All (Stores opts m.keys)) e' post-Stores) in
      let (behind_page, _) =
        All-append (IsBehind opts.page_token) (q ++ t ∷ []) (u ∷ rest)
          (subst (All (IsBehind opts.page_token)) e' start.behind) in
      let (sorted_page, _) =
        IsSorted-append (q ++ t ∷ []) (u ∷ rest) (subst IsSorted e' post-IsSorted) in
      let (after_q, _) = (IsSorted-append q (t ∷ u ∷ rest) (subst IsSorted e post-IsSorted)).1 in
      let (_, (last_store, _)) =
        All-append (Stores opts m.keys) q (t ∷ u ∷ rest)
          (subst (All (Stores opts m.keys)) e post-Stores) in
      record {
        held = page_held (q ++ t ∷ []) stores_page behind_page;
        ordered = subst IsSorted (sym (page_ids (q ++ t ∷ []) stores_page)) sorted_page;
        bounded = omega (arith, full, page_length (q ++ t ∷ []), length-append q (t ∷ []));
        complete = λ id k h sel behind.
            let (i, at) = post_holds id k h sel behind in
            elim (Holds-append (q ++ t ∷ []) (u ∷ rest) id
              (i, ap (λ ss. get_elem? ss i) (sym e') ∙ at)) [
                | inl here ↦ inl (page_holds (q ++ t ∷ []) id k h here)
                | inr (j, later) ↦ inr (
                  v.named t last_store.0 last_store.1,
                  All-at (λ s. str_lt t s ≡ true) (u ∷ rest) j id after_q later,
                )
              ];
        ends = inr (
          v.named t last_store.0 last_store.1,
          page_length (q ++ t ∷ []) ∙ length-append q (t ∷ []) ∙ omega (arith, full),
          subst (All (λ s. str_lt t s ≡ false)) (sym (page_ids (q ++ t ∷ []) stores_page))
              (IsSorted-last q t sorted_page),
        );
      }

  page_of :
      (pre post out : List String) (next : String)
      → sorted_ids ≡ pre ++ post
      → page (pre ++ post) opts.page_token opts.page_size ≡ some (out, next)
      → list_keys opts m
        ≡ (ok (record { keys = map (stored_key m) out; next_page_token = next }), m)
  page_of pre post out next whole e =
      list_keys-page m opts out next (ap (λ ss. page ss opts.page_token opts.page_size) whole ∙ e)

  -- On a valid state and for any options, ListKeys of the in-memory driver succeeds, changes
  -- nothing, and returns a page: stored keys of the API (and of the owner, if one is named) that
  -- come behind the token, in strictly ascending order of their ids, at most as many as the page
  -- size (50 if that is not positive); each such key is on the page, or there is a next token and
  -- the key comes behind it; and a page with a next token is full, and no id on it comes behind the
  -- token.
  pub list_keys-IsPage :
      (r : ListKeysResult) × (list_keys opts m ≡ (ok r, m)) × IsPage (view m) opts r
  list_keys-IsPage = elim (Bool-cases (leb (length start.post) (limit opts.page_size))) [
    | inl fits ↦
        let short : length start.post ≤ limit opts.page_size = ground (arith, fits) in
        (
          record { keys = map (stored_key m) start.post; next_page_token = "" },
          page_of start.pre start.post start.post "" start.whole (
              page_last start.pre start.post opts.page_token opts.page_size start.start
                (subst (λ n. length start.post ≤ n) (sym (page_limit-limit opts.page_size)) short)),
          last-IsPage short,
        )
    | inr over ↦
        let (n, size) = limit-pos opts.page_size in
        let (q, t, u, rest, e, l) = split_page n start.post (ground (arith, over, size)) in
        let full = ap suc l ∙ sym size in
        (
          record { keys = map (stored_key m) (q ++ t ∷ []); next_page_token = t },
          page_of start.pre (q ++ t ∷ u ∷ rest) (q ++ t ∷ []) t
              (start.whole ∙ ap (λ ss. start.pre ++ ss) e)
              (page_more start.pre q t u rest opts.page_token opts.page_size
                (subst (λ ss. page_start (start.pre ++ ss) opts.page_token ≡ length start.pre) e
                  start.start)
                (full ∙ sym (page_limit-limit opts.page_size))),
          more-IsPage q t u rest e full,
        )
  ]

-- The pages of the in-memory driver.
pub driver-Paged : Paged IsValid view driver
driver-Paged = record { list_keys = list_keys-IsPage; label = λ m v. v.labelled.key }
