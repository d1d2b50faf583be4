-- ===== src/Conformance/Pages.antt =====
-- keychainserver/store/conformance/conformance.go: the tests that page through ListKeys.
use keychain.Base.{
  ℕ, zero, suc, ◌+◌, String, Bool, true, false, not, none, some, List, [], ◌∷◌, String-Comparable,
  ◌==◌, nat_eq, Action, pure, if◌then◌else◌,
}
use keychain.Base.Lists.{length}
use keychain.Base.Map.{Map, get, put}
use keychain.Store.{Store, Key}
use keychain.Conformance.{
  ◌>>=◌, ◌>>◌, Surroundings, Failure, fatal_if, must, repeat, new_key, seed_workspace, seed_api,
}
use keychain.Conformance.Lists.{options}

-- A `map[string]bool`, whose values here are all true.
abbrev pub Seen : Type 0
Seen = Map String Bool

-- seen[id]
abbrev pub is_seen : String → Seen → Bool
is_seen id seen = elim (get id seen) [ none ↦ false | some b ↦ b ]

module _ {S : Type 0} where
  -- The loop over the keys of a page.
  unfoldable pub mark_seen : List Key → Seen → Action S Failure Seen
  mark_seen [] seen = pure seen
  mark_seen (k ∷ ks) seen =
      fatal_if "duplicate key across pages" (is_seen k.key_id seen)
      >> mark_seen ks (put k.key_id true seen)

module _ {S : Type 0} (st : Store S) (env : Surroundings) where
  -- The loop that creates keys, with `left` to go; byte(first + i) loses nothing for the counts here.
  unfoldable pub seed_keys : String → String → ℕ → ℕ → ℕ → Action S Failure (Unit {0})
  seed_keys api_id workspace_id first i zero = pure tt
  seed_keys api_id workspace_id first i (suc left) =
      must "seed key" (
        st.create_key (env.stamps (2 + i))
          (new_key api_id workspace_id "user_1" (repeat (first + i) 32)))
      >> seed_keys api_id workspace_id first (suc i) left

  -- The loop over the pages, with `left` rounds to go.
  unfoldable pub page_through : String → ℕ → String → Seen → Action S Failure Seen
  page_through api_id zero token seen = pure seen
  page_through api_id (suc left) token seen =
      must "page" (st.list_keys (options api_id "" 2 token)) >>= λ res.
      mark_seen res.keys seen >>= λ seen'.
      (let more = page_through api_id left res.next_page_token seen' in
        if res.next_page_token == "" then pure seen' else more)

  unfoldable pub key_list_paginates : Action S Failure (Unit {0})
  key_list_paginates = do
    w ← seed_workspace st env 0
    a ← seed_api st env 1 w.workspace_id
    seed_keys a.api_id w.workspace_id 0x80 0 5
    seen ← page_through a.api_id 10 "" []
    fatal_if "paginated through" (not (nat_eq (length seen) 5))

  unfoldable pub key_list_defaults_page_size : Action S Failure (Unit {0})
  key_list_defaults_page_size = do
    w ← seed_workspace st env 0
    a ← seed_api st env 1 w.workspace_id
    seed_keys a.api_id w.workspace_id 0 0 55
    first ← must "first page" (st.list_keys (options a.api_id "" 0 ""))
    fatal_if "first page" (not (nat_eq (length first.keys) 50))
    fatal_if "first page should include a next token" (first.next_page_token == "")
    second ← must "second page" (st.list_keys (options a.api_id "" 0 first.next_page_token))
    fatal_if "second page" (not (nat_eq (length second.keys) 5))
    fatal_if "second page next token" (not (second.next_page_token == ""))
