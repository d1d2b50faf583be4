-- ===== src/Postgres/Setup.antt =====
-- `New`, `RunMigrations` and `Close` of postgres.go: in which order a database is migrated and its
-- pool is opened. pgx, database/sql and golang-migrate are parameters: `Answers` holds what their
-- calls return. What the driver opens and closes is a trace, the latest first.
use keychain.Base.{
  ℕ, suc, ◌+◌, String, ◌≡◌, Bool, true, false, List, [], ◌∷◌, Outcome, ok, err, Action, pure, fail,
  ◌>>◌, if◌then◌else◌, arith,
}
use keychain.Store.{Err, context}

pub data Event : Type 0 where
  opened_db closed_db up_to_date opened_pool closed_pool : Event

abbrev pub Trace : Type 0
Trace = List Event

abbrev pub Step : Type 0
Step = Action Trace Err (Unit {0})

-- What `m.Up` returns: nil, migrate.ErrNoChange or another error.
pub data Up : Type 0 where
  applied : Up
  no_change : Up
  up_failed : Err → Up

pub record Answers : Type 0 where
  pub parse_config : Outcome Err (Unit {0})
  pub open_db : Outcome Err (Unit {0})
  pub driver : Outcome Err (Unit {0})
  pub source : Outcome Err (Unit {0})
  pub instance_of : Outcome Err (Unit {0})
  pub up : Up
  pub open_pool : Outcome Err (Unit {0})
  pub ping : Outcome Err (Unit {0})

abbrev pub emit : Event → Step
emit e t = (ok tt, e ∷ t)

-- A call, with the event that it went well, if it is one; an error is given its context.
abbrev pub call : String → Outcome Err (Unit {0}) → Step
call label (ok _) = pure tt
call label (err e) = fail (context label e)

-- defer db.Close()
abbrev pub closing_db : Step → Step
closing_db m t = let (r, t') = m t in (r, closed_db ∷ t')

abbrev pub finish_up : Up → Step
finish_up applied = emit up_to_date
finish_up no_change = emit up_to_date
finish_up (up_failed e) = fail (context "migrate up" e)

abbrev pub finish_ping : Outcome Err (Unit {0}) → Step
finish_ping (ok _) = pure tt
finish_ping (err e) = emit closed_pool >> fail (context "ping" e)

abbrev pub with_context : String → Step → Step
with_context label m t =
    let (r, t') = m t in (elim r [ ok a ↦ ok a | err e ↦ err (context label e) ], t')

module _ (a : Answers) where
  unfoldable pub migrate : Step
  migrate =
      call "migrate driver" a.driver
      >> (call "migrate source" a.source >> (call "migrate new" a.instance_of >> finish_up a.up))

  unfoldable pub run_migrations : Step
  unfolding migrate
  run_migrations = call "open sql.DB" a.open_db >> (emit opened_db >> closing_db migrate)

  unfoldable pub new : Step
  unfolding run_migrations
  new =
      call "open pool" a.parse_config
      >> (with_context "run migrations" run_migrations
          >> (call "open pool" a.open_pool >> (emit opened_pool >> finish_ping a.ping)))

-- Close
unfoldable pub close : Step
close = emit closed_pool

-- How often an event of a kind happened.
abbrev pub count : (Event → Bool) → Trace → ℕ
count p [] = 0
count p (e ∷ t) = if p e then suc (count p t) else count p t

abbrev pub is_opened_db : Event → Bool
is_opened_db opened_db = true
is_opened_db _ = false

abbrev pub is_closed_db : Event → Bool
is_closed_db closed_db = true
is_closed_db _ = false

abbrev pub is_opened_pool : Event → Bool
is_opened_pool opened_pool = true
is_opened_pool _ = false

abbrev pub is_closed_pool : Event → Bool
is_closed_pool closed_pool = true
is_closed_pool _ = false

abbrev pub is_ok : Outcome Err (Unit {0}) → Bool
is_ok (ok _) = true
is_ok (err e) = false

pub record Settled (r : Outcome Err (Unit {0}) × Trace) : Type 0 where
  pub db : count is_opened_db r.1 ≡ count is_closed_db r.1
  pub pool : count is_opened_pool r.1 ≡ count is_closed_pool r.1 + (if is_ok r.0 then 1 else 0)
  pub ready : is_ok r.0 ≡ true → r.1 ≡ opened_pool ∷ closed_db ∷ up_to_date ∷ opened_db ∷ []

module _ (a : Answers) where
  -- However the calls of New answer: the connection of the migrations is closed if it was opened,
  -- one pool is open afterwards if New succeeds and none if it fails, and if it succeeds, the
  -- schema was brought up to date and that connection closed before the pool was opened.
  pub new-Settled : Settled (new a [])
  unfolding new run_migrations migrate
  new-Settled = record { db = ground arith; pool = ground arith; ready = λ h. ground (arith, h) }
