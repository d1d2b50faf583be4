-- ===== src/Conformance.antt =====
-- keychainserver/store/conformance/conformance.go: what the tests of the suite share. A test is an
-- action on the state of the store under test; `t.Fatalf` ends it with an error.
pub mod Records
pub mod Keys
pub mod Lifecycle
pub mod Uses
pub mod Lists
pub mod Pages
pub mod Steps
pub mod Law
pub mod Calls
pub mod Refusals
pub mod Seeds
pub mod Stock
pub mod Selections
pub mod Suite
pub mod Passing
mod Tests
use keychain.Base.{
  ℕ, zero, suc, ◌+◌, ◌-◌, ◌*◌, ◌%◌, String, Bool, true, false, not, ◌&&◌, Option, none, some, List,
  [], ◌∷◌, Bytes, Bytes-Comparable, String-Comparable, ◌==◌, nat_eq, if◌then◌else◌, Outcome, ok,
  err, Action, pure, fail, ◌>>=◌ as bind,
}
use keychain.Base.Int.{pos, negsuc}
use keychain.Base.Lists.{length}
use keychain.Base.Map.{Map, get}
use keychain.Store.{
  Time, Metadata, Err, Sentinel, errors_is, Stamp, Store, Workspace, Api, LimitRef, Key,
}

-- What a test reads from its surroundings: what the store reads in its calls, and the instant that
-- `time.Now` returns.
pub record Surroundings : Type 0 where
  pub stamps : ℕ → Stamp
  pub now : Time

-- The message of `t.Fatal` or `t.Fatalf`, without its arguments.
abbrev pub Failure : Type 0
Failure = String

module _ {S : Type 0} where
  -- if cond { t.Fatal(message) }
  unfoldable pub fatal_if : Failure → Bool → Action S Failure (Unit {0})
  fatal_if message true = fail message
  fatal_if message false = pure tt

module _ {A : Type 0} where
  abbrev or_fatal : Failure → Outcome Err A → Outcome Failure A
  or_fatal message (ok a) = ok a
  or_fatal message (err e) = err message

  abbrev value_or : A → Outcome Err A → A
  value_or zero_value (ok a) = a
  value_or zero_value (err e) = zero_value

  abbrev is_error : Sentinel → Outcome Err A → Bool
  is_error target (ok a) = false
  is_error target (err e) = errors_is e target

module _ {S A : Type 0} where
  -- a, err := call; if err != nil { t.Fatalf(message, err) }
  unfoldable pub must : Failure → Action S Err A → Action S Failure A
  must message call s = let (r, s') = call s in (or_fatal message r, s')

  -- a, _ := call; a call that fails returns the zero value beside its error.
  unfoldable pub ignoring : A → Action S Err A → Action S Failure A
  ignoring zero_value call s = let (r, s') = call s in (ok (value_or zero_value r), s')

  -- _, err := call; if !errors.Is(err, target) { t.Fatalf(message, err) }
  unfoldable pub must_fail : Failure → Sentinel → Action S Err A → Action S Failure (Unit {0})
  unfolding fatal_if
  must_fail message target call s =
      let (r, s') = call s in fatal_if message (not (is_error target r)) s'

module _ {S A B : Type 0} where
  infixl 10 ◌>>=◌ ◌>>◌
  -- The next statement of a test runs unless this one ended the test.
  unfoldable pub ◌>>=◌ : Action S Failure A → (A → Action S Failure B) → Action S Failure B
  m >>= f = bind m f

  unfoldable pub ◌>>◌ : Action S Failure A → Action S Failure B → Action S Failure B
  m >> n = bind m λ _. n

abbrev second : Time
second = 1000000000

abbrev hour : Time
hour = 3600 * second

-- t.Truncate(time.Second)
abbrev pub truncate : Time → Time
truncate t = t - t % second

-- time.Now().UTC().Add(time.Hour).Truncate(time.Second)
unfoldable pub in_an_hour : Time → Time
in_an_hour now = truncate (now + hour)

-- time.Now().UTC().Add(-time.Hour).Truncate(time.Second)
unfoldable pub an_hour_ago : Time → Time
an_hour_ago now = truncate (now - hour)

-- t.IsZero()
abbrev pub is_zero_time : Time → Bool
is_zero_time t = nat_eq t 0

-- bytes.Repeat([]byte{b}, n)
abbrev pub repeat : ℕ → ℕ → Bytes
repeat b zero = []
repeat b (suc n) = b ∷ repeat b n

-- slices.Equal
abbrev slices_equal : {A : Type 0} → (A → A → Bool) → List A → List A → Bool
slices_equal eq [] [] = true
slices_equal eq (x ∷ xs) (y ∷ ys) = eq x y && slices_equal eq xs ys
slices_equal eq _ _ = false

abbrev ref_equal : LimitRef → LimitRef → Bool
ref_equal r q = (r.limit_id == q.limit_id) && (r.scope_key == q.scope_key)

-- The entries of a map; the nil map has none.
abbrev entries : Metadata → Map String String
entries none = []
entries (some m) = m

abbrev has_entry : String → Option String → Bool
has_entry v none = false
has_entry v (some w) = w == v

abbrev includes : Map String String → Map String String → Bool
includes [] m = true
includes ((k, v) ∷ rest) m = has_entry v (get k m) && includes rest m

-- maps.Equal
unfoldable pub maps_equal : Metadata → Metadata → Bool
maps_equal a b =
    nat_eq (length (entries a)) (length (entries b)) && includes (entries a) (entries b)

unfoldable pub same_optional_time : Option Time → Option Time → Bool
same_optional_time none none = true
same_optional_time none (some t) = false
same_optional_time (some t) none = false
same_optional_time (some t) (some u) = nat_eq t u

abbrev pub new_workspace : String → Workspace
new_workspace name = record {
  workspace_id = "";
  name = name;
  owner_principal_id = "user_owner";
  created_at = 0;
  updated_at = 0;
  metadata = none;
}

abbrev pub new_api : String → String → Api
new_api workspace_id name = record {
  api_id = "";
  workspace_id = workspace_id;
  name = name;
  key_prefix = "ck_test_";
  created_at = 0;
  updated_at = 0;
  metadata = none;
}

abbrev pub new_key : String → String → String → Bytes → Key
new_key api_id workspace_id owner hash = record {
  key_id = "";
  api_id = api_id;
  workspace_id = workspace_id;
  owner_principal_id = owner;
  name = "test-key";
  key_hash = hash;
  permissions = "chat:write" ∷ [];
  limit_refs = [];
  expires_at = none;
  remaining_uses = negsuc 0;
  enabled = true;
  created_at = 0;
  updated_at = 0;
  last_verified_at = none;
  metadata = none;
}

-- store.Key{}
abbrev pub zero_key : Key
zero_key = record (new_key "" "" "" []) {
  name = "";
  permissions = [];
  remaining_uses = pos 0;
  enabled = false;
}

pub record KeySnapshot : Type 0 where
  pub hash : Bytes
  pub permissions : List String
  pub limit_refs : List LimitRef
  pub expires_at : Option Time
  pub last_verified_at : Option Time
  pub metadata : Metadata

module _ {S : Type 0} where
  unfoldable pub assert_key_fields : Key → KeySnapshot → Action S Failure (Unit {0})
  assert_key_fields got want = do
    fatal_if "KeyHash" (not (got.key_hash == want.hash))
    fatal_if "Permissions" (not (slices_equal ◌==◌ got.permissions want.permissions))
    fatal_if "LimitRefs" (not (slices_equal ref_equal got.limit_refs want.limit_refs))
    fatal_if "ExpiresAt" (not (same_optional_time got.expires_at want.expires_at))
    fatal_if "LastVerifiedAt" (not (same_optional_time got.last_verified_at want.last_verified_at))
    fatal_if "Metadata" (not (maps_equal got.metadata want.metadata))

module _ {S : Type 0} (st : Store S) (env : Surroundings) where
  -- The call reads the surroundings that have the given number.
  unfoldable pub seed_workspace : ℕ → Action S Failure Workspace
  seed_workspace n =
      must "seed workspace" (st.create_workspace (env.stamps n) (new_workspace "acme"))

  unfoldable pub seed_api : ℕ → String → Action S Failure Api
  seed_api n workspace_id =
      must "seed api" (st.create_api (env.stamps n) (new_api workspace_id "prod"))
