-- ===== src/Conformance/Passing/Lists.antt =====
-- Every store that keeps the contract of store.go and returns pages as it promises passes the tests
-- of ListKeys.
use keychain.Base.{
  ◌≡◌, refl, subst, ◌∙◌, String, String-Comparable, none, Bool-cases, some, [], arith, inl, inr,
  ◌==◌,
}
use keychain.Base.Lists.{length}
use keychain.Base.Map.{get}
use keychain.Base.Positions.{length-at, All-at}
use keychain.Base.Sorted.{length-sort}
use keychain.Store.{Key, ListKeysOpts, Store}
use keychain.Conformance.Law.{Law}
use keychain.Store.Contract.{View, Precision}
use keychain.Store.Enumeration.{Enumerates}
use keychain.Store.Pages.{Paged}
use keychain.Memory.Page.{matching_ids}
use keychain.Conformance.{assert_key_fields, Surroundings}
use keychain.Conformance.Keys.{full_key, full_snapshot}
use keychain.Conformance.Lists.{
  options, key_list_preserves_all_fields, key_list_unknown_api_is_empty,
}
use keychain.Conformance.Steps.{Passes, pass_bind, pass_then, pass_last, lead_must, lead_check}
use keychain.Conformance.Selections.{page-length, length-check, pass_list, lead_index}
use keychain.Conformance.Seeds.{
  Suits, empty_view, seed_w, seed_a, seeded, pass_seeded, lead_first_key, first_id, first_key,
  keyed,
}
use keychain.Conformance.Stock.{entries-hit, entries, stock-Enumerates}
use keychain.Conformance.Passing.Keys.{full_key-Passes}

empty-Enumerates : (opts : ListKeysOpts) → Enumerates empty_view opts []
empty-Enumerates opts = record { sorted = tt; held = tt; every = λ id k e. cc e }

only-key :
    (p : Precision) (env : Surroundings) (k : Key) (j : String) (l : Key)
    → (keyed p env k).keys j ≡ some l
    → first_key p env k ≡ l
only-key p env k j l e = elim (Bool-cases (first_id env == j)) [
  | inl hit ↦ let e' : some (first_key p env k) ≡ some l = rw hit at e in cc e'
  | inr miss ↦ let e' : none ≡ some l = rw miss at e in cc e'
]

module _ {S : Type 0} {Valid : S → Type 0} {view : S → View} {p : Precision} {st : Store S}
    (law : Law Valid view p st) (paged : Paged Valid view st) (env : Surroundings)
    (suits : Suits p env) where
  pub key_list_unknown_api_is_empty-Passes :
      Passes Valid view empty_view (key_list_unknown_api_is_empty st env)
  unfolding key_list_unknown_api_is_empty
  key_list_unknown_api_is_empty-Passes =
      let opts = options "api_missing" "" 10 "" in
      pass_list paged _ opts _ λ label r page.
        let (none_left, last) =
          page-length empty_view opts [] r 0 label (empty-Enumerates opts) page refl
            (omega arith) in
        pass_last (lead_check _ (rw (none_left, last) refl))

  pub key_list_preserves_all_fields-Passes :
      Passes Valid view empty_view (key_list_preserves_all_fields st env)
  unfolding key_list_preserves_all_fields full_key get matching_ids
  key_list_preserves_all_fields-Passes =
      let k = full_key st env (seed_a p env).api_id (seed_w p env).workspace_id in
      let opts = options (seed_a p env).api_id "" 10 "" in
      pass_seeded law env _ (
        pass_bind _ (lead_must _ (lead_first_key law env k refl refl)) (
          pass_list paged _ opts _ λ label r page.
            let e = stock-Enumerates p env 2 (λ i. k) (seeded p env) 1 opts suits refl in
            let (one, _) =
              page-length (keyed p env k) opts _ r 1 label e page
                (length-sort (matching_ids opts (entries p env 2 (λ i. k) 1))
                  ∙ entries-hit p env 2 (λ i. k) opts 0 (refl, inl refl))
                (omega arith) in
            let (l, at) = length-at r.keys 0 (omega (arith, one)) in
            let (held, _, _) = All-at _ r.keys 0 l page.held at in
            pass_then (lead_check _ (length-check (length r.keys) 1 one)) (
              pass_bind _ (lead_index r.keys 0 l at) (
                subst
                  (λ k.
                    Passes Valid view
                      (keyed p env
                        (full_key st env (seed_a p env).api_id (seed_w p env).workspace_id))
                      (assert_key_fields k (full_snapshot st env)))
                  (only-key p env k l.key_id l held) (full_key-Passes law env suits)))))
