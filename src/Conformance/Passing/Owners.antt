-- ===== src/Conformance/Passing/Owners.antt =====
-- Every store that keeps the contract of store.go and returns pages as it promises passes the test of
-- the owner filter.
use keychain.Base.{
  ℕ, ◌+◌, zero, suc, ◌<◌, ◌≡◌, ◌≢◌, refl, ap, ◌∙◌, String-Comparable, not, eq_iff, arith, inl, inr,
  ◌==◌,
}
use keychain.Base.Lists.{All-map, length}
use keychain.Base.Map.{get}
use keychain.Base.Sorted.{length-sort}
use keychain.Store.{Key, ListKeysOpts, Store}
use keychain.Conformance.Law.{Law}
use keychain.Store.Contract.{View, Precision, kept_api, kept_workspace, stamped_key}
use keychain.Store.Pages.{Paged}
use keychain.Memory.Page.{matching_ids}
use keychain.Conformance.{zero_key, Surroundings, repeat, new_key}
use keychain.Conformance.Lists.{options, key_list_filter_by_owner}
use keychain.Conformance.Steps.{
  Leads, Passes, pass_bind, pass_then, pass_last, lead_ignoring, lead_check,
}
use keychain.Conformance.Selections.{page-length, length-check, pass_list, lead_each}
use keychain.Conformance.Seeds.{
  repeat-ne, seeded-apis, seeded-workspaces, Suits, empty_view, seed_w, seed_a, seeded, pass_seeded,
}
use keychain.Conformance.Stock.{
  entries-hit, entries-miss, lead_stock, stock, entries, stock-Enumerates,
}

module _ {S : Type 0} {Valid : S → Type 0} {view : S → View} {p : Precision} {st : Store S}
    (law : Law Valid view p st) (paged : Paged Valid view st) (env : Surroundings)
    (suits : Suits p env) where
  -- The three keys of the test by owner.
  owned_keys : ℕ → Key
  owned_keys zero =
      new_key (seed_a p env).api_id (seed_w p env).workspace_id "user_1" (repeat 0x70 32)
  owned_keys (suc zero) =
      new_key (seed_a p env).api_id (seed_w p env).workspace_id "user_2" (repeat 0x71 32)
  owned_keys (suc (suc n)) =
      new_key (seed_a p env).api_id (seed_w p env).workspace_id "user_1" (repeat (0x72 + n) 32)

  owned_keys-differ : (i j : ℕ) → i < j → (owned_keys i).key_hash ≢ (owned_keys j).key_hash
  unfolding owned_keys
  owned_keys-differ i zero lt e = absurd (omega (arith, lt))
  owned_keys-differ zero (suc zero) lt e = repeat-ne 0x70 0x71 31 (omega arith) e
  owned_keys-differ zero (suc (suc n)) lt e = repeat-ne 0x70 (0x72 + n) 31 (omega arith) e
  owned_keys-differ (suc zero) (suc zero) lt e = absurd (omega (arith, lt))
  owned_keys-differ (suc zero) (suc (suc n)) lt e = repeat-ne 0x71 (0x72 + n) 31 (omega arith) e
  owned_keys-differ (suc (suc m)) (suc zero) lt e = absurd (omega (arith, lt))
  owned_keys-differ (suc (suc m)) (suc (suc n)) lt e =
      repeat-ne (0x72 + m) (0x72 + n) 31 (omega (arith, lt)) e

  lead_owned :
      (n : ℕ)
      → (owned_keys n).api_id ≡ (seed_a p env).api_id
      → (owned_keys n).workspace_id ≡ (seed_w p env).workspace_id
      → Leads Valid view
          (stock p env 2 owned_keys (seeded p env) n)
          (st.create_key (env.stamps (2 + n)) (owned_keys n))
          (stamped_key (env.stamps (2 + n)) (owned_keys n))
          (stock p env 2 owned_keys (seeded p env) (suc n))
  lead_owned n api workspace =
      lead_stock p env 2 owned_keys owned_keys-differ law suits (seeded p env) n
        (kept_api p (seed_a p env)) (kept_workspace p (seed_w p env)) (rw api (seeded-apis p env))
        (rw workspace (seeded-workspaces p env))

  owned_options : ListKeysOpts
  owned_options = options (seed_a p env).api_id "user_1" 100 ""

  owned_count : length (matching_ids owned_options (entries p env 2 owned_keys 3)) ≡ 2
  unfolding matching_ids owned_keys owned_options
  owned_count =
      entries-hit p env 2 owned_keys owned_options 2 (refl, inr refl)
      ∙ ap suc (
          entries-miss p env 2 owned_keys owned_options 1 (λ (_, owner). elim owner [
            | inl e ↦ cc e
            | inr e ↦ cc ((eq_iff "user_2" "user_1").1 e)
          ])
          ∙ entries-hit p env 2 owned_keys owned_options 0 (refl, inr refl))

  pub key_list_filter_by_owner-Passes :
      Passes Valid view empty_view (key_list_filter_by_owner st env)
  unfolding key_list_filter_by_owner get owned_keys owned_options
  key_list_filter_by_owner-Passes = pass_seeded law env _ (
      pass_bind _ (lead_ignoring zero_key (lead_owned 0 refl refl)) (
        pass_bind _ (lead_ignoring zero_key (lead_owned 1 refl refl)) (
          pass_bind _ (lead_ignoring zero_key (lead_owned 2 refl refl)) (
            pass_list paged _ owned_options _ λ label r page.
              let e =
                stock-Enumerates p env 2 owned_keys (seeded p env) 3 owned_options suits refl in
              let (two, _) =
                page-length (stock p env 2 owned_keys (seeded p env) 3) owned_options _ r 2 label e
                  page (length-sort _ ∙ owned_count) (omega arith) in
              pass_then (lead_check _ (length-check (length r.keys) 2 two)) (
                pass_last (
                  lead_each _ (λ k. not (k.owner_principal_id == "user_1")) r.keys
                    (All-map r.keys
                      (λ k (_, (_, owner), _). elim owner [ inl e ↦ cc e | inr e ↦ rw e refl ])
                      page.held)))))))
