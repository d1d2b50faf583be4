-- ===== src/Conformance/Selections.antt =====
-- The steps of a test that lists keys, and how many keys of a store the options select.
use keychain.Base.{
  ◌<◌, not, nat_eq, arith, ℕ, ◌≡◌, refl, ap, subst, String, Bool, false, some, List, [], ◌∷◌,
  Action,
}
use keychain.Base.Lists.{All, length, get_elem?}
use keychain.Store.{Key, ListKeysOpts, ListKeysResult, Store}
use keychain.Store.Contract.{View}
use keychain.Store.Page.{IsPage, limit}
use keychain.Store.Enumeration.{Enumerates, page_short, length-ids}
use keychain.Store.Pages.{Paged}
use keychain.Conformance.{◌>>=◌, Failure, fatal_if, must}
use keychain.Conformance.Lists.{each, index}
use keychain.Conformance.Steps.{Leads, Passes, lead_check, lead_then}

-- Every key of a view is stored under its own id.
abbrev pub Labelled : View → Type 0
Labelled v = (id : String) (k : Key) → v.keys id ≡ some k → k.key_id ≡ id

module _ {S : Type 0} {Valid : S → Type 0} {view : S → View} {v : View} where
  -- A test that lists keys passes if it passes with every page of the view.
  pub pass_list :
      {st : Store S} (paged : Paged Valid view st) (message : Failure) (opts : ListKeysOpts)
      (f : ListKeysResult → Action S Failure (Unit {0}))
      → (Labelled v → (r : ListKeysResult) → IsPage v opts r → Passes Valid view v (f r))
      → Passes Valid view v (must message (st.list_keys opts) >>= f)
  unfolding must ◌>>=◌
  pass_list paged message opts f rest = record {
    run = λ s valid e.
        let (r, run, page) = paged.list_keys s valid opts in
        let label = subst Labelled e (paged.label s valid) in
        rw run ((rest label r (subst (λ v. IsPage v opts r) e page)).run s valid e);
  }

  pub lead_each :
      {A : Type 0} (message : Failure) (cond : A → Bool) (xs : List A)
      → All (λ x. cond x ≡ false) xs
      → Leads Valid view v (each xs λ x. fatal_if message (cond x)) tt v
  unfolding each
  lead_each message cond [] h = record {
    run = λ s valid e. record { result = refl; valid = valid; after = e };
  }
  lead_each message cond (x ∷ xs) h =
      lead_then (lead_check message h.0) (lead_each message cond xs h.1)

  pub lead_index :
      {A : Type 0} (xs : List A) (i : ℕ) (a : A)
      → get_elem? xs i ≡ some a
      → Leads Valid view v (index xs i) a v
  unfolding index
  lead_index xs i a h = record {
    run = λ s valid e. rw (h, index) (record { result = refl; valid = valid; after = e });
  }

-- The length of a page that holds all there is.
pub page-length :
    (v : View) (opts : ListKeysOpts) (all : List String) (r : ListKeysResult) (n : ℕ)
    → Labelled v
    → Enumerates v opts all
    → IsPage v opts r
    → length all ≡ n
    → n < limit opts.page_size
    → (length r.keys ≡ n) × (r.next_page_token ≡ "")
page-length v opts all r n label e page count few =
    let (whole, last) = page_short v label opts all e r page (omega (arith, count, few)) in
    (omega (arith, length-ids r.keys, ap length whole, count), last)

-- The check of a length.
pub length-check : (n m : ℕ) → n ≡ m → not (nat_eq n m) ≡ false
length-check n m e = ground (arith, e)
