-- ===== src/Conformance/Seeds.antt =====
-- The state that the tests start from: an empty store, or one with a workspace and an API.
use keychain.Base.{
  suc, arith, ℕ, ◌≡◌, ◌≢◌, refl, String, false, none, some, equal_refl, equal_ne, String-Comparable,
  Option, [], ◌∷◌, Action,
}
use keychain.Base.Map.{update}
use keychain.Store.{Time, Workspace, Api, Key, Store, new_id}
use keychain.Conformance.Law.{Law}
use keychain.Store.Contract.{
  View, Precision, with_workspace, with_api, with_key, kept_workspace, kept_api, kept_key,
  stamped_workspace, stamped_api, stamped_key,
}
use keychain.Store.Ids.{new_id-ne}
use keychain.Store.Held.{with_key-held, with_key-other}
use keychain.Conformance.{
  ◌>>=◌, Surroundings, Failure, truncate, is_zero_time, new_workspace, new_api, new_key, repeat,
  seed_workspace, seed_api,
}
use keychain.Conformance.Steps.{Leads, Passes, pass_bind, lead_must}
use keychain.Conformance.Calls.{
  lead_get_key, lead_create_key, lead_create_workspace, lead_create_api,
}

-- A store that holds nothing.
abbrev pub empty_view : View
empty_view = record { workspaces = λ id. none; apis = λ id. none; keys = λ id. none }

-- What the tests rely on: the driver keeps whole seconds and maps of one entry, no two calls
-- read the same uuid, and the calls read instants after the zero time.
pub record Suits (p : Precision) (env : Surroundings) : Type 0 where
  pub whole : (t : Time) → p.time (truncate t) ≡ truncate t
  pub small : (k v : String) → p.metadata (some ((k, v) ∷ [])) ≡ some ((k, v) ∷ [])
  pub differ : (i j : ℕ) → i ≢ j → (env.stamps i).uuid ≢ (env.stamps j).uuid
  pub started : (i : ℕ) → is_zero_time (env.stamps i).now ≡ false

pub update_self :
    {A : Type 0} (id : String) (a : A) (f : String → Option A) → update id a f id ≡ some a
update_self id a f = rw (equal_refl id) refl

pub update_other :
    {A : Type 0} (id j : String) (a : A) (f : String → Option A) → id ≢ j → update id a f j ≡ f j
update_other id j a f ne = rw (equal_ne id j ne) refl

module _ (p : Precision) (env : Surroundings) where
  -- The records that the seeds return, and the store that they leave.
  abbrev pub seed_w : Workspace
  seed_w = stamped_workspace (env.stamps 0) (new_workspace "acme")

  abbrev pub seed_a : Api
  seed_a = stamped_api (env.stamps 1) (new_api seed_w.workspace_id "prod")

  abbrev pub seeded : View
  seeded = with_api (kept_api p seed_a) (with_workspace (kept_workspace p seed_w) empty_view)

  -- The workspace and the API are found.
  pub seeded-workspaces : seeded.workspaces seed_w.workspace_id ≡ some (kept_workspace p seed_w)
  seeded-workspaces =
      update_self seed_w.workspace_id (kept_workspace p seed_w) empty_view.workspaces

  pub seeded-apis : seeded.apis seed_a.api_id ≡ some (kept_api p seed_a)
  seeded-apis = update_self seed_a.api_id (kept_api p seed_a) empty_view.apis

module _ {S : Type 0} {Valid : S → Type 0} {view : S → View} {p : Precision} {st : Store S}
    (law : Law Valid view p st) (env : Surroundings) where
  pub lead_seed_workspace :
      Leads Valid view empty_view
        (seed_workspace st env 0)
        (seed_w p env)
        (with_workspace (kept_workspace p (seed_w p env)) empty_view)
  unfolding seed_workspace
  lead_seed_workspace =
      lead_must _ (lead_create_workspace law (env.stamps 0) (new_workspace "acme") refl)

  -- A test that starts with the two seeds passes if the rest passes on the store that they leave.
  pub pass_seeded :
      (f : Workspace → Api → Action S Failure (Unit {0}))
      → Passes Valid view (seeded p env) (f (seed_w p env) (seed_a p env))
      → Passes Valid view empty_view
          (seed_workspace st env 0 >>= λ w. seed_api st env 1 w.workspace_id >>= f w)
  unfolding seed_api
  pass_seeded f rest = pass_bind _ lead_seed_workspace (
      pass_bind _
        (lead_must "seed api" (
          lead_create_api law (env.stamps 1) (new_api (seed_w p env).workspace_id "prod")
            (kept_workspace p (seed_w p env)) (seeded-workspaces p env) refl))
        rest)

pub repeat-ne : (b c n : ℕ) → b ≢ c → repeat b (suc n) ≢ repeat c (suc n)
repeat-ne b c n ne e = ne (cc e)

module _ (p : Precision) (env : Surroundings) where
  -- A key of the tests, in the API and the workspace of the seeds.
  abbrev pub test_key : ℕ → Key
  test_key b = new_key (seed_a p env).api_id (seed_w p env).workspace_id "user_1" (repeat b 32)

module _ (env : Surroundings) where
  -- The id of the first key that a test creates.
  abbrev pub first_id : String
  first_id = new_id "key" (env.stamps 2)

module _ (p : Precision) (env : Surroundings) (k : Key) where
  -- The first key as it is stored, and the store that holds it.
  abbrev pub first_key : Key
  first_key = kept_key p (stamped_key (env.stamps 2) k)

  abbrev pub keyed : View
  keyed = with_key (first_id env) first_key (seeded p env)

  pub keyed-held : keyed.keys (first_id env) ≡ some first_key
  keyed-held = with_key-held (seeded p env) (first_id env) first_key

  -- The id of the second key is free.
  pub second_id-free : Suits p env → (keyed.keys (new_id "key" (env.stamps 3))) ≡ none
  second_id-free suits =
      with_key-other (seeded p env) (first_id env) first_key (new_id "key" (env.stamps 3))
        (new_id-ne "key" (env.stamps 2) (env.stamps 3) (suits.differ 2 3 (omega arith)))

module _ {S : Type 0} {Valid : S → Type 0} {view : S → View} {p : Precision} {st : Store S}
    (law : Law Valid view p st) (env : Surroundings) (k : Key) where
  pub lead_first_key :
      k.api_id ≡ (seed_a p env).api_id
      → k.workspace_id ≡ (seed_w p env).workspace_id
      → Leads Valid view
          (seeded p env)
          (st.create_key (env.stamps 2) k)
          (stamped_key (env.stamps 2) k)
          (keyed p env k)
  lead_first_key api workspace =
      lead_create_key law (env.stamps 2) k (kept_api p (seed_a p env))
        (kept_workspace p (seed_w p env)) (rw api (seeded-apis p env))
        (rw workspace (seeded-workspaces p env)) refl (λ j l e. cc)

  pub lead_get_first :
      Leads Valid view
        (keyed p env k)
        (st.get_key_by_id (first_id env))
        (first_key p env k)
        (keyed p env k)
  lead_get_first = lead_get_key law (first_id env) (first_key p env k) (keyed-held p env k)
