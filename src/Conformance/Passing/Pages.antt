-- ===== src/Conformance/Passing/Pages.antt =====
-- Every store that keeps the contract of store.go and returns pages as it promises passes the tests
-- that page through ListKeys.
use keychain.Base.{
  ℕ, ◌+◌, zero, suc, ◌<◌, ◌≡◌, ◌≢◌, refl, ap, subst, ◌∙◌, String, String-Comparable, arith, inl,
  equal_ne, pure,
}
use keychain.Base.Lists.{length}
use keychain.Base.Map.{get}
use keychain.Base.Sorted.{length-sort}
use keychain.Store.{Key, Store}
use keychain.Conformance.Law.{Law}
use keychain.Store.Contract.{View, Precision, kept_api, kept_workspace}
use keychain.Store.Enumeration.{page_long, from_token}
use keychain.Store.Pages.{Paged}
use keychain.Memory.Page.{matching_ids}
use keychain.Conformance.{Surroundings, Failure, repeat, new_key}
use keychain.Conformance.Lists.{options}
use keychain.Conformance.Pages.{seed_keys, key_list_defaults_page_size}
use keychain.Conformance.Steps.{
  Leads, Passes, pass_then, pass_last, lead_must, lead_check, lead_then, lead_done,
}
use keychain.Conformance.Selections.{pass_list, page-length, length-check}
use keychain.Conformance.Seeds.{
  Suits, empty_view, seed_w, seed_a, seeded, seeded-apis, seeded-workspaces, pass_seeded, repeat-ne,
}
use keychain.Conformance.Stock.{stock, entries, entries-hit, lead_stock, stock-Enumerates}

module _ {S : Type 0} {Valid : S → Type 0} {view : S → View} {p : Precision} {st : Store S}
    (law : Law Valid view p st) (paged : Paged Valid view st) (env : Surroundings)
    (suits : Suits p env) where
  -- The keys of the loop, from the byte `first` on.
  abbrev pub loop_keys : ℕ → ℕ → Key
  loop_keys first i =
      new_key (seed_a p env).api_id (seed_w p env).workspace_id "user_1" (repeat (first + i) 32)

  loop_keys-differ :
      (first i j : ℕ) → i < j → (loop_keys first i).key_hash ≢ (loop_keys first j).key_hash
  loop_keys-differ first i j lt = repeat-ne (first + i) (first + j) 31 (omega (arith, lt))

  abbrev pub looped : ℕ → ℕ → View
  looped first n = stock p env 2 (loop_keys first) (seeded p env) n

  -- The loop creates its keys.
  pub lead_seed_keys :
      (first i left n : ℕ)
      → left + i ≡ n
      → Leads Valid view
          (looped first i)
          (seed_keys st env (seed_a p env).api_id (seed_w p env).workspace_id first i left)
          tt
          (looped first n)
  unfolding seed_keys
  lead_seed_keys first i zero n e =
      let same : i ≡ n = omega (arith, e) in
      subst (λ n. Leads Valid view (looped first i) (pure {E = Failure} tt) tt (looped first n))
        same lead_done
  lead_seed_keys first i (suc left) n e =
      lead_then
        (lead_must "seed key" (
          lead_stock p env 2 (loop_keys first) (loop_keys-differ first) law suits (seeded p env) i
            (kept_api p (seed_a p env)) (kept_workspace p (seed_w p env)) (seeded-apis p env)
            (seeded-workspaces p env)))
        (lead_seed_keys first (suc i) left n (omega (arith, e)))

  -- All keys of the loop count for a listing of the API.
  pub looped-count :
      (first n size : ℕ) (token : String)
      → length (
          matching_ids
            (options (seed_a p env).api_id "" size token)
            (entries p env 2 (loop_keys first) n))
        ≡ n
  unfolding matching_ids
  looped-count first zero size token = refl
  looped-count first (suc n) size token =
      entries-hit p env 2 (loop_keys first) (options (seed_a p env).api_id "" size token) n
        (refl, inl refl)
      ∙ ap suc (looped-count first n size token)

  pub key_list_defaults_page_size-Passes :
      Passes Valid view empty_view (key_list_defaults_page_size st env)
  unfolding key_list_defaults_page_size get
  key_list_defaults_page_size-Passes =
      let opts = options (seed_a p env).api_id "" 0 "" in
      pass_seeded law env _ (
        pass_then (lead_seed_keys 0 0 55 55 (omega arith)) (
          pass_list paged _ opts _ λ label r page.
            let e = stock-Enumerates p env 2 (loop_keys 0) (seeded p env) 55 opts suits refl in
            let count = length-sort _ ∙ looped-count 0 55 0 "" in
            let (full, more, rest, left, e') =
              page_long (looped 0 55) label opts _ e r page (omega (arith, count)) in
            pass_then (lead_check _ (length-check (length r.keys) 50 full)) (
              pass_then (lead_check _ (equal_ne r.next_page_token "" more)) (
                pass_list paged _ (from_token r.next_page_token opts) _ λ label' q page'.
                  let (five, last) =
                    page-length (looped 0 55) (from_token r.next_page_token opts) rest q 5 label e'
                      page' (omega (arith, left, count)) (omega arith) in
                  pass_then (lead_check _ (length-check (length q.keys) 5 five))
                    (pass_last (lead_check _ (rw last refl)))))))
