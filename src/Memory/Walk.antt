-- ===== src/Memory/Walk.antt =====
-- A client that follows the page tokens of `ListKeys`.
use mathlib.Core.List.{append_assoc, map-append}
use keychain.Base.{
  ℕ, zero, suc, ◌<◌, String, String-Comparable, ◌≡◌, ◌≢◌, refl, sym, ◌∙◌, ap, subst, Option, none,
  some, List, [], ◌∷◌, ◌++◌, map, arith, ok, err, inl, inr, Bool-cases, if◌then◌else◌, leb, ◌==◌,
  equal_refl, equal_ne,
}
use keychain.Base.Lists.{All, length, length-append, sort_strings}
use keychain.Base.Map.{Map}
use keychain.Base.Sorted.{IsSorted, search-append, get_elem?-append}
use keychain.Store.{Key, ListKeysOpts}
use keychain.Memory.{Memory, clone_key, key_at}
use keychain.Memory.Page.{page, page_start, page_limit, matches, matching_ids, list_keys}
use keychain.Memory.Paging.{page_last, page_more, page_limit-pos}

-- All pages, from the token of the options on; `none` if a call fails or the fuel runs out.
unfoldable pub list_all : ℕ → ListKeysOpts → Memory → Option (List Key)
list_all zero opts m = none
list_all (suc f) opts m = elim (list_keys opts m).0 [
  | err _ ↦ none
  | ok res ↦
      let rest = list_all f (record opts { page_token = res.next_page_token }) m in
      if res.next_page_token == ""
      then some res.keys
      else elim rest [ none ↦ none | some more ↦ some (res.keys ++ more) ]
]

-- The token of a page leads to the place behind it.
page_start-append :
    (pre : List String) (t : String) (post : List String)
    → t ≢ ""
    → IsSorted (pre ++ t ∷ post)
    → page_start (pre ++ t ∷ post) t ≡ suc (length pre)
unfolding page_start
page_start-append pre t post n h =
    rw (equal_ne t "" n, search-append pre t post h, get_elem?-append pre t post, equal_refl t)
      (ground (arith, length-append pre (t ∷ post)))

pub split_page :
    {A : Type 0} (n : ℕ) (xs : List A)
    → suc n < length xs
    → (q : List A) × (t : A) × (u : A) × (post : List A) × (xs ≡ q ++ t ∷ u ∷ post) × (length q ≡ n)
split_page n [] h = absurd (omega arith)
split_page n (x ∷ []) h = absurd (omega arith)
split_page zero (x ∷ y ∷ xs) h = ([], x, y, xs, refl, refl)
split_page (suc n) (x ∷ y ∷ xs) h =
    let (q, t, u, post, e, l) = split_page n (y ∷ xs) (omega arith) in
    (x ∷ q, t, u, post, ap (◌∷◌ x) e, ap suc l)

-- The page token is no part of the filter.
matching_ids-token :
    (opts : ListKeysOpts) (token : String) (keys : Map String Key)
    → matching_ids (record opts { page_token = token }) keys ≡ matching_ids opts keys
unfolding matching_ids matches
matching_ids-token opts token [] = refl
matching_ids-token opts token ((id, k) ∷ keys) = rw (matching_ids-token opts token keys)

All-member :
    (pre : List String) (t : String) (post : List String)
    → All (λ s. s ≢ "") (pre ++ t ∷ post)
    → t ≢ ""
All-member [] t post h = h.0
All-member (p ∷ pre) t post h = All-member pre t post h.1

module _ (m : Memory) where
  abbrev pub stored_key : String → Key
  stored_key id = clone_key (key_at id m)

  pub list_keys-page :
      (opts : ListKeysOpts) (out : List String) (next : String)
      → page (sort_strings (matching_ids opts m.keys)) opts.page_token opts.page_size
        ≡ some (out, next)
      → list_keys opts m ≡ (ok (record { keys = map stored_key out; next_page_token = next }), m)
  unfolding list_keys
  list_keys-page opts out next e = rw (e, list_keys)

  list_all_last :
      (f : ℕ) (opts : ListKeysOpts) (rest : List String)
      → page (sort_strings (matching_ids opts m.keys)) opts.page_token opts.page_size
        ≡ some (rest, "")
      → list_all (suc f) opts m ≡ some (map stored_key rest)
  unfolding list_all
  list_all_last f opts rest e = rw (list_keys-page opts rest "" e, list_all)

  list_all_more :
      (f : ℕ) (opts : ListKeysOpts) (out : List String) (t : String) (more : List Key)
      → page (sort_strings (matching_ids opts m.keys)) opts.page_token opts.page_size
        ≡ some (out, t)
      → t ≢ ""
      → list_all f (record opts { page_token = t }) m ≡ some more
      → list_all (suc f) opts m ≡ some (map stored_key out ++ more)
  unfolding list_all
  list_all_more f opts out t more e n rest =
      rw (list_keys-page opts out t e, list_all) (rw (equal_ne t "" n, rest))

  -- The state of the walk: the ids before the page, and those from it on.
  pub record From (opts : ListKeysOpts) (pre rest : List String) : Type 0 where
    pub ids : sort_strings (matching_ids opts m.keys) ≡ pre ++ rest
    pub start : page_start (pre ++ rest) opts.page_token ≡ length pre
    pub sorted : IsSorted (pre ++ rest)
    pub named : All (λ s. s ≢ "") (pre ++ rest)

  -- The walk goes on behind the last id of the page.
  From-next :
      (opts : ListKeysOpts) (pre q : List String) (t u : String) (post : List String)
      → From opts pre (q ++ t ∷ u ∷ post)
      → (t ≢ "") × From (record opts { page_token = t }) ((pre ++ q) ++ t ∷ []) (u ∷ post)
  From-next opts pre q t u post w = (
    nonempty,
    record {
      ids = matching ∙ w.ids ∙ regroup ∙ sym around;
      start = rw around (page_start-append (pre ++ q) t (u ∷ post) nonempty sorted ∙ place);
      sorted = rw around sorted;
      named = rw around named;
    },
  )
    where
      matching :
          sort_strings (matching_ids (record opts { page_token = t }) m.keys)
          ≡ sort_strings (matching_ids opts m.keys)
      matching = ap sort_strings (matching_ids-token opts t m.keys)

      regroup : pre ++ (q ++ t ∷ u ∷ post) ≡ (pre ++ q) ++ t ∷ u ∷ post
      regroup = sym (append_assoc pre q (t ∷ u ∷ post))

      around : ((pre ++ q) ++ t ∷ []) ++ u ∷ post ≡ (pre ++ q) ++ t ∷ u ∷ post
      around = append_assoc (pre ++ q) (t ∷ []) (u ∷ post)

      sorted : IsSorted ((pre ++ q) ++ t ∷ u ∷ post)
      sorted = subst IsSorted regroup w.sorted

      named : All (λ s. s ≢ "") ((pre ++ q) ++ t ∷ u ∷ post)
      named = subst (All (λ s. s ≢ "")) regroup w.named

      nonempty : t ≢ ""
      nonempty = All-member (pre ++ q) t (u ∷ post) named

      place : suc (length (pre ++ q)) ≡ length ((pre ++ q) ++ t ∷ [])
      place = omega (arith, length-append (pre ++ q) (t ∷ []))

  pub list_all-From :
      (f : ℕ) (opts : ListKeysOpts) (pre rest : List String)
      → From opts pre rest
      → length rest < f
      → list_all f opts m ≡ some (map stored_key rest)
  list_all-From zero opts pre rest w fuel = absurd (omega arith)
  list_all-From (suc f) opts pre rest w fuel =
      elim (Bool-cases (leb (length rest) (page_limit opts.page_size))) [
        | inl fits ↦
            list_all_last f opts rest
              (rw w.ids (page_last pre rest opts.page_token opts.page_size w.start (ground arith)))
        | inr more ↦
            let (n, limit) = page_limit-pos opts.page_size in
            let (q, t, u, post, e, l) = split_page n rest (ground (arith, limit)) in
            let w' : From opts pre (q ++ t ∷ u ∷ post) = subst (From opts pre) e w in
            let (nonempty, next) = From-next opts pre q t u post w' in
            list_all_more f opts (q ++ t ∷ []) t (map stored_key (u ∷ post))
              (rw w'.ids
                (page_more pre q t u post opts.page_token opts.page_size w'.start (cc (l, limit))))
              nonempty
              (list_all-From f (record opts { page_token = t }) ((pre ++ q) ++ t ∷ []) (u ∷ post)
                next (omega (arith, fuel, ap length e, length-append q (t ∷ u ∷ post))))
            ∙ ap some (
                sym (map-append stored_key (q ++ t ∷ []) (u ∷ post))
                ∙ ap (map stored_key) (append_assoc q (t ∷ []) (u ∷ post) ∙ sym e))
      ]
