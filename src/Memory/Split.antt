-- ===== src/Memory/Split.antt =====
-- Where a page of `ListKeys` of memory.go starts, for any token.
use mathlib.Core.List.{append_assoc, Mem, not-mem-nil, mem_of_ne_of_mem}
use keychain.Base.{
  suc, ◌+◌, String, String-Comparable, ◌≡◌, ◌≢◌, inl, inr, refl, sym, ap, subst, ◌∙◌, true, false,
  some, List, [], ◌∷◌, ◌++◌, arith, Bool-cases, ◌==◌, eq_iff, equal_ne,
}
use keychain.Base.Lists.{All, All-map, length, search_strings, length-append}
use keychain.Base.Order.{str_lt, lt_trans, lt_total, lt_irrefl, lt_asymm}
use keychain.Base.Positions.{Holds}
use keychain.Base.Extent.{IsSorted-append}
use keychain.Base.Sorted.{IsSorted, get_elem?-append}
use keychain.Memory.Page.{page_start}
use keychain.Store.Page.{IsBehind}

pub Mem-Holds : (s : String) (ss : List String) → Mem s ss → Holds ss s
Mem-Holds s [] m = absurd (not-mem-nil m)
Mem-Holds s (t ∷ ss) m = elim (Bool-cases (s == t)) [
  | inl hit ↦ (0, ap some (sym ((eq_iff s t).0 hit)))
  | inr miss ↦
      let (i, e) = Mem-Holds s ss (mem_of_ne_of_mem (λ p. ground (arith, eq_iff s t)) m) in
      (suc i, e)
]

-- A sorted list, cut where the search for a string ends.
record Cut (x : String) (ss : List String) : Type 0 where
  below : List String
  above : List String
  whole : ss ≡ below ++ above
  found : search_strings ss x ≡ length below
  before : All (λ s. str_lt s x ≡ true) below
  behind : All (λ s. str_lt s x ≡ false) above

search_strings-Cut : (x : String) (ss : List String) → IsSorted ss → Cut x ss
unfolding search_strings
search_strings-Cut x [] h = record {
  below = [];
  above = [];
  whole = refl;
  found = refl;
  before = tt;
  behind = tt;
}
search_strings-Cut x (s ∷ ss) h = elim (Bool-cases (str_lt s x)) [
  | inl lt ↦
      let c = search_strings-Cut x ss h.1 in
      record {
        below = s ∷ c.below;
        above = c.above;
        whole = ap (λ ss. s ∷ ss) c.whole;
        found = rw lt (ap suc c.found);
        before = (lt, c.before);
        behind = c.behind;
      }
  | inr ge ↦ record {
    below = [];
    above = s ∷ ss;
    whole = refl;
    found = rw ge refl;
    before = tt;
    behind = (ge, All-map ss (λ t lt. not_below s t x ge lt) h.0);
  }
]
  where
    not_below : (s t x : String) → str_lt s x ≡ false → str_lt s t ≡ true → str_lt t x ≡ false
    not_below s t x ge lt = elim (Bool-cases (str_lt t x)) [
      | inl less ↦ cc (lt_trans s t x lt less, ge)
      | inr no_less ↦ no_less
    ]

-- The ids before the page, and those from its start on.
pub record Split (token : String) (ss : List String) : Type 0 where
  pub pre : List String
  pub post : List String
  pub whole : ss ≡ pre ++ post
  pub start : page_start (pre ++ post) token ≡ length pre
  pub before : All (λ s. (token ≢ "") × (str_lt token s ≡ false)) pre
  pub behind : All (IsBehind token) post

All-snoc :
    (P : String → Type 0) (xs : List String) (x : String) → All P xs → P x → All P (xs ++ x ∷ [])
All-snoc P [] x h p = (p, tt)
All-snoc P (y ∷ xs) x h p = (h.0, All-snoc P xs x h.1 p)

every : {P : String → Type 0} (xs : List String) → ((x : String) → P x) → All P xs
every [] f = tt
every (x ∷ xs) f = (f x, every xs f)

module _ (token : String) (given : token ≢ "") (ss : List String) (sorted : IsSorted ss) where
  at_end :
      (below : List String)
      → search_strings (below ++ []) token ≡ length below
      → page_start (below ++ []) token ≡ length below
  unfolding page_start
  at_end below e = rw (equal_ne token "" given, e) (ground (arith, length-append below []))

  at_other :
      (below : List String) (t : String) (above : List String)
      → search_strings (below ++ t ∷ above) token ≡ length below
      → (t == token) ≡ false
      → page_start (below ++ t ∷ above) token ≡ length below
  unfolding page_start
  at_other below t above e miss =
      rw (equal_ne token "" given, e, get_elem?-append below t above, miss)
        (ground (arith, length-append below (t ∷ above)))

  at_same :
      (below : List String) (t : String) (above : List String)
      → search_strings (below ++ t ∷ above) token ≡ length below
      → (t == token) ≡ true
      → page_start (below ++ t ∷ above) token ≡ length below + 1
  unfolding page_start
  at_same below t above e hit =
      rw (equal_ne token "" given, e, get_elem?-append below t above, hit)
        (ground (arith, length-append below (t ∷ above)))

  above_token : (t : String) → str_lt t token ≡ false → t ≢ token → str_lt token t ≡ true
  above_token t ge other = elim (lt_total t token) [
    | inl e ↦ absurd (other e)
    | inr (inl lt) ↦ cc (lt, ge)
    | inr (inr gt) ↦ gt
  ]

  split_at :
      (below above : List String)
      → ss ≡ below ++ above
      → search_strings ss token ≡ length below
      → All (λ s. str_lt s token ≡ true) below
      → All (λ s. str_lt s token ≡ false) above
      → Split token ss
  split_at below [] whole e before behind = record {
    pre = below;
    post = [];
    whole = whole;
    start = at_end below (ap (λ ss. search_strings ss token) (sym whole) ∙ e);
    before = All-map below (λ s lt. (given, lt_asymm s token lt)) before;
    behind = tt;
  }
  split_at below (t ∷ above) whole e before behind =
      let here = ap (λ ss. search_strings ss token) (sym whole) ∙ e in
      let rest = (IsSorted-append below (t ∷ above) (subst IsSorted whole sorted)).1 in
      elim (Bool-cases (t == token)) [
        | inl hit ↦
            let p = (eq_iff t token).0 hit in
            let assoc = append_assoc below (t ∷ []) above in
            record {
              pre = below ++ t ∷ [];
              post = above;
              whole = whole ∙ sym assoc;
              start =
                  subst (λ ss. page_start ss token ≡ length (below ++ t ∷ [])) (sym assoc)
                    (at_same below t above here hit ∙ sym (length-append below (t ∷ [])));
              before =
                  All-snoc (λ s. (token ≢ "") × (str_lt token s ≡ false)) below t
                    (All-map below (λ s lt. (given, lt_asymm s token lt)) before)
                    (given, subst (λ s. str_lt token s ≡ false) (sym p) (lt_irrefl token));
              behind = All-map above (λ s lt. inr (subst (λ t. str_lt t s ≡ true) p lt)) rest.0;
            }
        | inr miss ↦ record {
          pre = below;
          post = t ∷ above;
          whole = whole;
          start = at_other below t above here miss;
          before = All-map below (λ s lt. (given, lt_asymm s token lt)) before;
          behind =
              let lt = above_token t behind.0 (λ p. ground (arith, eq_iff t token)) in
              (inr lt, All-map above (λ s more. inr (lt_trans token t s lt more)) rest.0);
        }
      ]

pub page_start-Split : (token : String) (ss : List String) → IsSorted ss → Split token ss
unfolding page_start
page_start-Split token ss h = elim (Bool-cases (token == "")) [
  | inl blank ↦ record {
    pre = [];
    post = ss;
    whole = refl;
    start = rw blank refl;
    before = tt;
    behind = every ss (λ s. inl ((eq_iff token "").0 blank));
  }
  | inr miss ↦
      let c = search_strings-Cut token ss h in
      split_at token (λ e. ground (arith, eq_iff token "")) ss h c.below c.above c.whole c.found
        c.before c.behind
]
