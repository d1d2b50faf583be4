-- ===== src/Server.antt =====
-- keychainserver/server.go and options.go: the service's state, its errors, and the calls of the
-- store and the rate limiter. The handlers are in the children.
pub mod Convert
pub mod Admin
pub mod Verify
pub mod Permissions
pub mod Usable
pub mod Decision
pub mod Metering
pub mod Table
pub mod Verdicts
pub mod Issue
pub mod Lifecycle
pub mod Credit
pub mod Registry
pub mod Tests
use keychain.Base.{
  String, Bool, true, false, Option, none, some, List, [], Outcome, ok, err, Action, Bytes,
  if◌then◌else◌,
}
use keychain.Base.Int.{ℤ}
use keychain.Store.{Time, Err, errors_is, opaque, Sentinel, Stamp, Store, LimitRef}

-- google.golang.org/grpc/codes, as far as the service returns them.
pub data Code : Type 0 where
  invalid_argument not_found already_exists failed_precondition internal unavailable : Code

-- The text of a status: a constant, an error's own text, or `Errorf("<label>: %v", err)`.
pub data Message : Type 0 where
  text : String → Message
  error_text : Err → Message
  labelled : String → Err → Message

pub record Status : Type 0 where
  pub code : Code
  pub message : Message

abbrev pub status : Code → Message → Status
status c m = record { code = c; message = m }

pub record LimitDecision : Type 0 where
  pub limit_id : String
  pub scope_key : String
  pub allowed : Bool
  pub remaining : ℤ
  pub retry_after_ms : ℤ

-- The `RateLimiter` interface over a client's state.
pub record RateLimiter (R : Type 0) : Type 0 where
  pub consume : List LimitRef → ℤ → String → Action R Err (List LimitDecision)

pub record Options (S R : Type 0) : Type 0 where
  pub store : Option (Store S)
  pub rate_limiter : Option (RateLimiter R)

pub record Server (S R : Type 0) : Type 0 where
  pub store : Store S
  pub rl : Option (RateLimiter R)

-- `opts.Store == nil` is refused; the logger has no effect on what the service returns.
abbrev with_store :
    {S R : Type 0} → Option (Store S) → Option (RateLimiter R) → Outcome Err (Server S R)
with_store none rl = err (opaque "keychainserver: Options.Store is required")
with_store (some st) rl = ok (record { store = st; rl = rl })

-- New
unfoldable pub new : {S R : Type 0} → Options S R → Outcome Err (Server S R)
new o = with_store o.store o.rate_limiter

-- The states behind the two interfaces.
pub record World (S R : Type 0) : Type 0 where
  pub stored : S
  pub limiter : R

-- What the surroundings deliver during one call: `s.now` at the expiry test and at the touch, what
-- the driver reads, and the result of reading random bytes.
pub record Readings : Type 0 where
  pub checked_at : Time
  pub touched_at : Time
  pub stamp : Stamp
  pub random : Outcome Err Bytes

unfoldable pub map_store_err : Err → Status
map_store_err e =
    if errors_is e Sentinel.not_found
    then status not_found (error_text e)
    else if errors_is e Sentinel.conflict
    then status already_exists (error_text e)
    else status internal (error_text e)

abbrev pub map_err : {E F A : Type 0} → (E → F) → Outcome E A → Outcome F A
map_err f (ok a) = ok a
map_err f (err e) = err (f e)

module _ {S R : Type 0} where
  -- A call of the store, with its error as it is.
  abbrev pub call_store : {A : Type 0} → Action S Err A → Action (World S R) Err A
  call_store m w = let (r, s) = m w.stored in (r, record w { stored = s })

  -- A call of the rate limiter, with its error as it is.
  abbrev pub call_limiter : {A : Type 0} → Action R Err A → Action (World S R) Err A
  call_limiter m w = let (r, l) = m w.limiter in (r, record w { limiter = l })

  -- `if err != nil { return nil, f(err) }`
  abbrev pub or_status :
      {A : Type 0} → (Err → Status) → Action (World S R) Err A → Action (World S R) Status A
  or_status f m w = let (r, w') = m w in (map_err f r, w')

  abbrev pub lift : {A : Type 0} → Outcome Status A → Action (World S R) Status A
  lift r w = (r, w)
