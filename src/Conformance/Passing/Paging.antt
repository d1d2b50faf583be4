-- ===== src/Conformance/Passing/Paging.antt =====
-- Every store that keeps the contract of store.go and returns pages as it promises passes the test
-- that collects the keys of all pages.
use keychain.Base.{
  ℕ, ◌+◌, zero, suc, ◌<◌, ◌≡◌, ◌≢◌, refl, sym, ap, subst, ◌∙◌, String, String-Comparable, true,
  none, some, List, [], ◌∷◌, ◌++◌, arith, inl, inr, ◌==◌, equal_ne, Bool-cases, Action,
}
use keychain.Base.Lists.{All, All-map, length, length-append}
use keychain.Base.Map.{get, put, get-put_ne}
use keychain.Base.Order.{str_lt, lt_irrefl}
use keychain.Base.Positions.{length-at}
use keychain.Base.Sorted.{IsSorted, Before, length-sort}
use keychain.Base.Extent.{All-append}
use keychain.Store.{Key, Store}
use keychain.Conformance.Law.{Law}
use keychain.Store.Contract.{View, Precision}
use keychain.Store.Page.{ids}
use keychain.Store.Enumeration.{Enumerates, page_last, page_more, length-ids}
use keychain.Store.Pages.{Paged}
use keychain.Conformance.{Surroundings, Failure, ◌>>=◌}
use keychain.Conformance.Lists.{options}
use keychain.Conformance.Pages.{Seen, is_seen, mark_seen, page_through, key_list_paginates}
use keychain.Conformance.Steps.{
  Leads, Passes, pass_bind, pass_then, pass_last, lead_check, lead_then, pass_assoc, lead_value,
}
use keychain.Conformance.Selections.{pass_list, length-check}
use keychain.Conformance.Seeds.{Suits, empty_view, seed_a, seeded, pass_seeded}
use keychain.Conformance.Stock.{stock-Enumerates}
use keychain.Conformance.Passing.Pages.{loop_keys, lead_seed_keys, looped-count}

-- The ids of the keys, entered in the map.
abbrev marked : List String → Seen → Seen
marked [] seen = seen
marked (id ∷ ss) seen = marked ss (put id true seen)

-- The map has none of the ids.
abbrev Unseen : List String → Seen → Type 0
Unseen ss seen = All (λ id. get id seen ≡ none) ss

empty-Unseen : (ss : List String) → Unseen ss []
unfolding get
empty-Unseen [] = tt
empty-Unseen (s ∷ ss) = (refl, empty-Unseen ss)

length-put :
    (id : String) (seen : Seen) → get id seen ≡ none → length (put id true seen) ≡ suc (length seen)
unfolding get put
length-put id [] e = refl
length-put id ((j, b) ∷ seen) e = elim (Bool-cases (j == id)) [
  | inl hit ↦ let e' : some b ≡ none = rw hit at e in cc e'
  | inr miss ↦ rw miss (ap suc (length-put id seen (rw miss at e)))
]

-- Entering an id leaves the later ones out.
put-Unseen :
    (id : String) (ss : List String) (seen : Seen)
    → All (λ t. id ≢ t) ss
    → Unseen ss seen
    → Unseen ss (put id true seen)
put-Unseen id [] seen d u = tt
put-Unseen id (t ∷ ss) seen d u =
    (get-put_ne id t true seen d.0 ∙ u.0, put-Unseen id ss seen d.1 u.1)

Before-apart : (s : String) (ss : List String) → Before s ss → All (λ t. s ≢ t) ss
Before-apart s ss b = All-map ss (λ t lt same. cc (lt, ap (λ u. str_lt s u) same, lt_irrefl s)) b

length-marked :
    (ss : List String) (seen : Seen)
    → IsSorted ss
    → Unseen ss seen
    → length (marked ss seen) ≡ length ss + length seen
length-marked [] seen h u = omega arith
length-marked (s ∷ ss) seen h u = omega (
  arith,
  length-marked ss (put s true seen) h.1 (put-Unseen s ss seen (Before-apart s ss h.0) u.1),
  length-put s seen u.0,
)

-- What comes behind a sorted page stays out.
marked-Unseen :
    (ss rest : List String) (seen : Seen)
    → IsSorted (ss ++ rest)
    → Unseen rest seen
    → Unseen rest (marked ss seen)
marked-Unseen [] rest seen h u = u
marked-Unseen (s ∷ ss) rest seen h u =
    marked-Unseen ss rest (put s true seen) h.1 (
      put-Unseen s rest seen (All-append (λ t. s ≢ t) ss rest (Before-apart s (ss ++ rest) h.0)).1
        u)

module _ {S : Type 0} {Valid : S → Type 0} {view : S → View} {v : View} where
  lead_mark_seen :
      (ks : List Key) (seen : Seen)
      → IsSorted (ids ks)
      → Unseen (ids ks) seen
      → Leads Valid view v (mark_seen ks seen) (marked (ids ks) seen) v
  unfolding mark_seen
  lead_mark_seen [] seen h u = lead_value seen
  lead_mark_seen (k ∷ ks) seen h u = lead_then (lead_check _ (rw (u.0, is_seen) refl)) (
      lead_mark_seen ks (put k.key_id true seen) h.1
        (put-Unseen k.key_id (ids ks) seen (Before-apart k.key_id (ids ks) h.0) u.1))

module _ {S : Type 0} {Valid : S → Type 0} {view : S → View} {v : View} {st : Store S}
    (paged : Paged Valid view st) (env : Surroundings) (api_id : String)
    (f : Seen → Action S Failure (Unit {0})) where
  -- The loop over the pages sees as many keys as there are, in any number of rounds above it.
  pass_pages :
      (left : ℕ) (token : String) (seen : Seen) (all : List String)
      → Enumerates v (options api_id "" 2 token) all
      → length all < left
      → Unseen all seen
      → ((seen' : Seen) → length seen' ≡ length all + length seen → Passes Valid view v (f seen'))
      → Passes Valid view v (page_through st env api_id left token seen >>= f)
  unfolding page_through
  pass_pages zero token seen all e rounds unseen rest = absurd (omega (arith, rounds))
  pass_pages (suc left) token seen all e rounds unseen rest = pass_assoc _ _ f (
      pass_list paged _ (options api_id "" 2 token) _ λ label r page. elim page.ends [
        | inl last ↦
            let whole = page_last v label (options api_id "" 2 token) all e r page last in
            let fresh = subst (λ ss. Unseen ss seen) (sym whole) unseen in
            pass_assoc _ _ f (
              pass_bind _ (lead_mark_seen r.keys seen page.ordered fresh) (
                rw last (
                  pass_bind f (lead_value (marked (ids r.keys) seen)) (
                    rest (marked (ids r.keys) seen) (
                      omega (
                        arith,
                        length-marked (ids r.keys) seen page.ordered fresh,
                        ap length whole,
                      ))))))
        | inr (more, full, upto) ↦
            let (first, at) = length-at (ids r.keys) 0 (omega (arith, full, length-ids r.keys)) in
            let (behind, whole, e') =
              page_more v label (options api_id "" 2 token) all e r page first (0, at) upto more in
            let (fresh, later) =
              All-append (λ id. get id seen ≡ none) (ids r.keys) behind
                (subst (λ ss. Unseen ss seen) whole unseen) in
            pass_assoc _ _ f (
              pass_bind _ (lead_mark_seen r.keys seen page.ordered fresh) (
                rw (equal_ne r.next_page_token "" more) (
                  pass_pages left r.next_page_token (marked (ids r.keys) seen) behind e'
                    (omega (
                      arith,
                      rounds,
                      full,
                      ap length whole,
                      length-append (ids r.keys) behind,
                      length-ids r.keys,
                    ))
                    (marked-Unseen (ids r.keys) behind seen (subst IsSorted whole e.sorted) later)
                    (λ seen' count. rest seen' (
                      omega (
                        arith,
                        count,
                        ap length whole,
                        length-append (ids r.keys) behind,
                        length-marked (ids r.keys) seen page.ordered fresh,
                      ))))))
      ])

module _ {S : Type 0} {Valid : S → Type 0} {view : S → View} {p : Precision} {st : Store S}
    (law : Law Valid view p st) (paged : Paged Valid view st) (env : Surroundings)
    (suits : Suits p env) where
  pub key_list_paginates-Passes : Passes Valid view empty_view (key_list_paginates st env)
  unfolding key_list_paginates get
  key_list_paginates-Passes =
      let opts = options (seed_a p env).api_id "" 2 "" in
      let keys = loop_keys law paged env suits 0x80 in
      let count = length-sort _ ∙ looped-count law paged env suits 0x80 5 2 "" in
      pass_seeded law env _ (
        pass_then (lead_seed_keys law paged env suits 0x80 0 5 5 (omega arith)) (
          pass_pages paged env (seed_a p env).api_id _ 10 "" [] _
            (stock-Enumerates p env 2 keys (seeded p env) 5 opts suits refl) (omega (arith, count))
            (empty-Unseen _)
            (λ seen' total.
              pass_last
                (lead_check _ (length-check (length seen') 5 (omega (arith, total, count)))))))
