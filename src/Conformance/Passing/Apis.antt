-- ===== src/Conformance/Passing/Apis.antt =====
-- Every store that keeps the contract of store.go and returns pages as it promises passes the test of
-- the filter by API.
use keychain.Base.{
  ℕ, ◌+◌, zero, suc, ◌<◌, ◌≡◌, ◌≢◌, refl, sym, ap, ◌∙◌, String-Comparable, not, some, arith, inl,
  ◌==◌, equal_refl,
}
use keychain.Base.Lists.{All-map, length}
use keychain.Base.Map.{get}
use keychain.Base.Sorted.{length-sort}
use keychain.Store.{Api, Key, ListKeysOpts, Store}
use keychain.Conformance.Law.{Law}
use keychain.Store.Contract.{
  stamped_api, with_api, View, Precision, kept_api, kept_workspace, stamped_key,
}
use keychain.Store.Pages.{Paged}
use keychain.Memory.Page.{matching_ids}
use keychain.Conformance.{zero_key, Surroundings, repeat, new_key}
use keychain.Conformance.Lists.{zero_api, options, key_list_by_api, key_list_by_api}
use keychain.Conformance.{new_api}
use keychain.Conformance.Calls.{lead_create_api}
use keychain.Conformance.Steps.{
  Leads, Passes, pass_bind, pass_then, pass_last, lead_ignoring, lead_check,
}
use keychain.Conformance.Selections.{page-length, length-check, pass_list, lead_each}
use keychain.Store.Ids.{new_id-ne}
use keychain.Conformance.Seeds.{
  update_other, update_self, empty_view, repeat-ne, seeded-apis, seeded-workspaces, Suits,
  empty_view, seed_w, seed_a, seeded, pass_seeded,
}
use keychain.Conformance.Stock.{
  entries-hit, entries-miss, lead_stock, stock, entries, stock-Enumerates,
}

module _ {S : Type 0} {Valid : S → Type 0} {view : S → View} {p : Precision} {st : Store S}
    (law : Law Valid view p st) (paged : Paged Valid view st) (env : Surroundings)
    (suits : Suits p env) where
  -- The second API, and the view that holds both.
  abbrev second_api : Api
  second_api = stamped_api (env.stamps 2) (new_api (seed_w p env).workspace_id "staging")

  abbrev two_apis : View
  two_apis = with_api (kept_api p second_api) (seeded p env)

  api_ids-differ : second_api.api_id ≢ (seed_a p env).api_id
  api_ids-differ = new_id-ne "api" (env.stamps 2) (env.stamps 1) (suits.differ 2 1 (omega arith))

  first_api-held : two_apis.apis (seed_a p env).api_id ≡ some (kept_api p (seed_a p env))
  first_api-held =
      update_other second_api.api_id (seed_a p env).api_id (kept_api p second_api)
        (seeded p env).apis api_ids-differ
      ∙ seeded-apis p env

  second_api-held : two_apis.apis second_api.api_id ≡ some (kept_api p second_api)
  second_api-held = update_self second_api.api_id (kept_api p second_api) (seeded p env).apis

  lead_second_api :
      Leads Valid view
        (seeded p env)
        (st.create_api (env.stamps 2) (new_api (seed_w p env).workspace_id "staging"))
        second_api
        two_apis
  lead_second_api =
      lead_create_api law (env.stamps 2) (new_api (seed_w p env).workspace_id "staging")
        (kept_workspace p (seed_w p env)) (seeded-workspaces p env)
        (update_other (seed_a p env).api_id second_api.api_id (kept_api p (seed_a p env))
          empty_view.apis (λ e. api_ids-differ (sym e)))

  -- The three keys of the test, two of them in the first API.
  listed_keys : ℕ → Key
  listed_keys zero =
      new_key (seed_a p env).api_id (seed_w p env).workspace_id "user_1" (repeat 0x60 32)
  listed_keys (suc zero) =
      new_key (seed_a p env).api_id (seed_w p env).workspace_id "user_2" (repeat 0x61 32)
  listed_keys (suc (suc n)) =
      new_key second_api.api_id (seed_w p env).workspace_id "user_1" (repeat (0x62 + n) 32)

  listed_keys-differ : (i j : ℕ) → i < j → (listed_keys i).key_hash ≢ (listed_keys j).key_hash
  unfolding listed_keys
  listed_keys-differ i zero lt e = absurd (omega (arith, lt))
  listed_keys-differ zero (suc zero) lt e = repeat-ne 0x60 0x61 31 (omega arith) e
  listed_keys-differ zero (suc (suc n)) lt e = repeat-ne 0x60 (0x62 + n) 31 (omega arith) e
  listed_keys-differ (suc zero) (suc zero) lt e = absurd (omega (arith, lt))
  listed_keys-differ (suc zero) (suc (suc n)) lt e = repeat-ne 0x61 (0x62 + n) 31 (omega arith) e
  listed_keys-differ (suc (suc m)) (suc zero) lt e = absurd (omega (arith, lt))
  listed_keys-differ (suc (suc m)) (suc (suc n)) lt e =
      repeat-ne (0x62 + m) (0x62 + n) 31 (omega (arith, lt)) e

  lead_listed :
      (n : ℕ) (a : Api)
      → two_apis.apis (listed_keys n).api_id ≡ some a
      → (listed_keys n).workspace_id ≡ (seed_w p env).workspace_id
      → Leads Valid view
          (stock p env 3 listed_keys two_apis n)
          (st.create_key (env.stamps (3 + n)) (listed_keys n))
          (stamped_key (env.stamps (3 + n)) (listed_keys n))
          (stock p env 3 listed_keys two_apis (suc n))
  lead_listed n a api workspace =
      lead_stock p env 3 listed_keys listed_keys-differ law suits two_apis n a
        (kept_workspace p (seed_w p env)) api (rw workspace (seeded-workspaces p env))

  listed_options : ListKeysOpts
  listed_options = options (seed_a p env).api_id "" 100 ""

  listed_count : length (matching_ids listed_options (entries p env 3 listed_keys 3)) ≡ 2
  unfolding matching_ids listed_keys listed_options
  listed_count =
      entries-miss p env 3 listed_keys listed_options 2 (λ (api, _). api_ids-differ api)
      ∙ entries-hit p env 3 listed_keys listed_options 1 (refl, inl refl)
      ∙ ap suc (entries-hit p env 3 listed_keys listed_options 0 (refl, inl refl))

  pub key_list_by_api-Passes : Passes Valid view empty_view (key_list_by_api st env)
  unfolding key_list_by_api get listed_keys listed_options
  key_list_by_api-Passes = pass_seeded law env _ (
      pass_bind _ (lead_ignoring zero_api lead_second_api) (
        pass_bind _
          (lead_ignoring zero_key (lead_listed 0 (kept_api p (seed_a p env)) first_api-held refl))
          (pass_bind _
            (lead_ignoring zero_key (lead_listed 1 (kept_api p (seed_a p env)) first_api-held refl))
            (pass_bind _
              (lead_ignoring zero_key (lead_listed 2 (kept_api p second_api) second_api-held refl))
              (pass_list paged _ listed_options _ λ label r page.
                let e = stock-Enumerates p env 3 listed_keys two_apis 3 listed_options suits refl in
                let (two, _) =
                  page-length (stock p env 3 listed_keys two_apis 3) listed_options _ r 2 label e
                    page (length-sort _ ∙ listed_count) (omega arith) in
                pass_then (lead_check _ (length-check (length r.keys) 2 two)) (
                  pass_last (
                    lead_each _ (λ k. not (k.api_id == (seed_a p env).api_id)) r.keys
                      (All-map r.keys
                        (λ k (_, (api, _), _). rw (api, equal_refl (seed_a p env).api_id) refl)
                        page.held))))))))
