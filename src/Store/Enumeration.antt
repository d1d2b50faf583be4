-- ===== src/Store/Enumeration.antt =====
-- A page of `ListKeys` against all the keys that it is a page of.
use keychain.Base.{
  suc, ◌+◌, ◌<◌, [], ◌∷◌, arith, ◌≡◌, ◌≢◌, ◌⊎◌, inl, inr, refl, sym, ap, subst, ◌∙◌, String, true,
  false, some, List, ◌++◌,
}
use keychain.Base.Lists.{All, length, length-append}
use keychain.Base.Order.{str_lt, lt_trans, lt_total}
use keychain.Base.Positions.{Holds, length-at, All-at, map-at, at-map}
use keychain.Base.Sorted.{IsSorted}
use keychain.Base.Extent.{
  All-zip, Within, IsSorted-unique, All-append, IsSorted-append, Holds-append, Holds-left, cut,
}
use keychain.Store.{Key, ListKeysOpts, ListKeysResult}
use keychain.Store.Contract.{View}
use keychain.Store.Page.{IsPage, limit, limit-pos, Selected, IsBehind, ids}

pub length-ids : (ks : List Key) → length (ids ks) ≡ length ks
length-ids [] = refl
length-ids (k ∷ ks) = ap suc (length-ids ks)

-- The ids, in order, of the stored keys that the options select behind their token.
pub record Enumerates (v : View) (opts : ListKeysOpts) (all : List String) : Type 0 where
  pub sorted : IsSorted all
  pub held :
      All
        (λ id. (k : Key) × (v.keys id ≡ some k) × Selected opts k × IsBehind opts.page_token id)
        all
  pub every :
      (id : String) (k : Key)
      → v.keys id ≡ some k
      → Selected opts k
      → IsBehind opts.page_token id
      → Holds all id

-- The options of the page behind a token.
abbrev pub from_token : String → ListKeysOpts → ListKeysOpts
from_token token opts = record opts { page_token = token }

module _ (v : View) (label : (id : String) (k : Key) → v.keys id ≡ some k → k.key_id ≡ id)
    (opts : ListKeysOpts) (all : List String) (e : Enumerates v opts all) (r : ListKeysResult)
    (page : IsPage v opts r) where
  page-Within : Within (ids r.keys) all
  page-Within s (i, at) =
      let (k, here, same) = at-map (λ k. k.key_id) i r.keys s at in
      let (stored, sel, behind) = All-at _ r.keys i k page.held here in
      subst (Holds all) same (e.every k.key_id k stored sel behind)

  -- A string of the enumeration is on the page, or comes behind its token.
  on_page :
      (s : String)
      → Holds all s
      → Holds (ids r.keys) s ⊎ ((r.next_page_token ≢ "") × (str_lt r.next_page_token s ≡ true))
  on_page s (i, at) =
      let (k, stored, sel, behind) = All-at _ all i s e.held at in
      elim (page.complete s k stored sel behind) [
        | inl (j, here) ↦
            inl (j, map-at (λ k. k.key_id) j r.keys k here ∙ ap some (label s k stored))
        | inr later ↦ inr later
      ]

  -- A page without a next token holds all that is left.
  pub page_last : r.next_page_token ≡ "" → ids r.keys ≡ all
  page_last last =
      IsSorted-unique (ids r.keys) all page.ordered e.sorted page-Within
        (λ s h. elim (on_page s h) [ inl here ↦ here | inr (more, _) ↦ absurd (more last) ])

  -- What comes behind the next token of a page that is not empty comes behind the page's token.
  next-IsBehind :
      (s id : String)
      → All (λ id. str_lt r.next_page_token id ≡ false) (ids r.keys)
      → Holds (ids r.keys) s
      → str_lt r.next_page_token id ≡ true
      → IsBehind opts.page_token id
  next-IsBehind s id upto (i, at) later =
      let (k, here, same) = at-map (λ k. k.key_id) i r.keys s at in
      let (_, _, behind) = All-at _ r.keys i k page.held here in
      elim (subst (IsBehind opts.page_token) same behind) [
        | inl blank ↦ inl blank
        | inr less ↦ elim (lt_total s r.next_page_token) [
          | inl equal ↦ inr (
              lt_trans opts.page_token s id less
                (subst (λ t. str_lt t id ≡ true) (sym equal) later))
          | inr (inl before) ↦
              inr
                (lt_trans opts.page_token s id less (lt_trans s r.next_page_token id before later))
          | inr (inr after) ↦ cc (after, All-at _ (ids r.keys) i s upto at)
        ]
      ]

  -- Another page holds what is left up to its token.
  pub page_more :
      (first : String)
      → Holds (ids r.keys) first
      → All (λ id. str_lt r.next_page_token id ≡ false) (ids r.keys)
      → r.next_page_token ≢ ""
      → (rest : List String) × (all ≡ ids r.keys ++ rest)
        × Enumerates v (from_token r.next_page_token opts) rest
  page_more first filled upto more =
      let c = cut r.next_page_token all e.sorted in
      let (pre_sorted, post_sorted) =
        IsSorted-append c.pre c.post (subst IsSorted c.whole e.sorted) in
      let same : ids r.keys ≡ c.pre =
        IsSorted-unique (ids r.keys) c.pre page.ordered pre_sorted
          (λ s h.
            elim (Holds-append c.pre c.post s
              (subst (λ ss. Holds ss s) c.whole (page-Within s h))) [
                | inl here ↦ here
                | inr (j, later) ↦
                    cc (All-at _ c.post j s c.behind later, All-at _ (ids r.keys) h.0 s upto h.1)
              ])
          (λ s h.
            elim (on_page s
              (subst (λ ss. Holds ss s) (sym c.whole) (Holds-left c.pre c.post s h))) [
                | inl here ↦ here
                | inr (_, later) ↦ cc (later, All-at _ c.pre h.0 s c.upto h.1)
              ]) in
      (
        c.post,
        c.whole ∙ ap (λ ss. ss ++ c.post) (sym same),
        record {
          sorted = post_sorted;
          held =
              All-zip c.post (λ id (k, stored, sel, _) later. (k, stored, sel, inr later))
                (All-append _ c.pre c.post (subst (All _) c.whole e.held)).1 c.behind;
          every = λ id k stored sel behind. elim behind [
            | inl blank ↦ absurd (more blank)
            | inr later ↦
                elim (Holds-append c.pre c.post id (
                  subst (λ ss. Holds ss id) c.whole
                    (e.every id k stored sel (next-IsBehind first id upto filled later)))) [
                      | inl (j, early) ↦ cc (later, All-at _ c.pre j id c.upto early)
                      | inr here ↦ here
                    ]
          ];
        },
      )

  -- A page that could hold more than there is holds all, and has no next token.
  pub page_short : length all < limit opts.page_size → (ids r.keys ≡ all) × (r.next_page_token ≡ "")
  page_short few = elim page.ends [
    | inl last ↦ (page_last last, last)
    | inr (more, full, upto) ↦
        let (m, size) = limit-pos opts.page_size in
        let (first, at) = length-at (ids r.keys) 0 (omega (arith, full, size, length-ids r.keys)) in
        let (rest, whole, _) = page_more first (0, at) upto more in
        absurd (
          omega
            (arith, few, full, ap length whole, length-append (ids r.keys) rest, length-ids r.keys))
  ]

  -- A page of more than it can hold is full, and has a token with the rest behind it.
  pub page_long :
      limit opts.page_size < length all
      → (length r.keys ≡ limit opts.page_size)
        × (r.next_page_token ≢ "")
        × (rest : List String) × (length all ≡ limit opts.page_size + length rest)
        × Enumerates v (from_token r.next_page_token opts) rest
  page_long many = elim page.ends [
    | inl last ↦
        absurd (omega (arith, many, page.bounded, ap length (page_last last), length-ids r.keys))
    | inr (more, full, upto) ↦
        let (m, size) = limit-pos opts.page_size in
        let (first, at) = length-at (ids r.keys) 0 (omega (arith, full, size, length-ids r.keys)) in
        let (rest, whole, e') = page_more first (0, at) upto more in
        (
          full,
          more,
          rest,
          omega (arith, full, ap length whole, length-append (ids r.keys) rest, length-ids r.keys),
          e',
        )
  ]
