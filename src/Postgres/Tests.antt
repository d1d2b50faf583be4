-- ===== src/Postgres/Tests.antt =====
-- The Postgres driver over three tables in memory, and a database that cannot be reached.
mod Encoding
mod Database
mod Behaviour
mod Pages
use keychain.Base.{String, ok, ◌≡◌, refl}
use keychain.Store.Contract.{Contract}
use keychain.Postgres.Writes.{Valid, view}
use keychain.Postgres.View.{precision}
use keychain.Postgres.Refinement.{driver_of, driver_of-Contract}
use keychain.Postgres.Setup.{Answers, Settled, no_change, new, new-Settled}
use keychain.Store.{opaque}
use keychain.Base.{err, []}
use Encoding.{json, columns, json-KeepsRefs}
use Database.{tables, Sound, pool}
use Behaviour.{engine}

driver_of-Contract_example :
    Contract
      (Valid tables Sound json columns)
      (view tables Sound json columns)
      (precision json columns)
      (driver_of json pool)
driver_of-Contract_example = driver_of-Contract tables Sound json columns pool engine json-KeepsRefs

abbrev unreachable : Answers
unreachable = record {
  parse_config = ok tt;
  open_db = ok tt;
  driver = ok tt;
  source = ok tt;
  instance_of = ok tt;
  up = no_change;
  open_pool = ok tt;
  ping = err (opaque "connection refused");
}

new-Settled_example : Settled (new unreachable [])
new-Settled_example = new-Settled unreachable
