-- ===== src/Lib.antt =====
-- keychain: a verification library for the API-key issuance and verification service.
--
-- The program is a gRPC service (keychainserver/server.go) over a persistence boundary
-- (keychainserver/store/store.go) with two interchangeable drivers,
-- keychainserver/store/memory/memory.go and keychainserver/store/postgres/postgres.go. Key material is
-- made and hashed by pkg/keymat/keymat.go. A handler takes a wire message, checks it, calls the store
-- (and, for VerifyKey, the rate limiter), and converts what it gets back to a wire message. The command
-- (cmd/keychain/main.go) reads the configuration (internal/config/config.go), opens a store and serves.
--
-- Files
--   Base            shared vocabulary: Go maps as lists of entries, int64 values, slices, the order of
--                   strings, and code that returns a value or an error and threads a state
--   Store           store.go: records, sentinel errors, the interface as a record of operations
--   Store/Contract  what store.go promises of a driver, over a view of its state as three maps, which
--                   Store/View has; Store/Page says what a page of ListKeys is
--     Ids, Held, Revoking         the ids of newID, a view after one more key, and a revocation
--     Pages, Enumeration          what a client relies on of ListKeys, and a page against all there is
--                   to list
--   Memory          memory.go: the operations; Memory/Page is ListKeys
--     Invariant, Index, History   the invariant, and the states that operations reach
--     Reads, Writes, Refinement   the driver keeps the contract
--     Paging, Split, Pages        a page of ListKeys
--     Walk, Listing, Enumeration  what a client gets that follows the page tokens
--   Postgres        postgres.go: the operations; Postgres/Codec has the rows and columns
--     Sql, Engine                 the statements as an interface, and how the database answers them
--     View                        the three maps that the tables stand for, and the precision
--     Reads, Writes, Failures, Refinement   the driver keeps the contract
--     Query, Scan, Listing        the query of ListKeys, its rows and the page
--     Setup                       New, RunMigrations and Close
--   Config          internal/config/config.go: Load and Validate; Config/Redact has the redaction
--     Validity, Secrets           what Validate accepts, and what a redacted URL shows
--   Command         cmd/keychain/main.go: the commands, the store that is opened, serve
--     Lifecycle, Success          what serve leaves behind, and when it succeeds
--     FailClosed                  VerifyKey with the rate limiter of the command
--     Logger                      the level of the logger
--   Embedding       examples/embedded/main.go: a host that mounts the service
--     Lifecycle                   what the host leaves behind, and when it succeeds
--   Keymat          keymat.go, with base32; Keymat/Encoding counts its characters
--   Wire            the messages of gen/apikey/v1/apikey.pb.go
--   Server          server.go and options.go: the service's state, New, mapStoreErr
--     Convert, Admin, Verify      the converters, the administrative handlers, VerifyKey
--     Permissions, Usable         what it means that a key may be used
--     Decision, Metering, Table, Verdicts, Credit   what VerifyKey answers and writes
--     Issue, Lifecycle            CreateKey, RevokeKey and RotateKey, with VerifyKey after them
--     Registry                    what the administrative handlers answer
--   Conformance     keychainserver/store/conformance/conformance.go: what its tests share; the tests are
--                   in Records, Keys, Lifecycle, Uses, Lists and Pages, and Run is in Suite
--     Law, Steps, Calls, Refusals   what a call of a store that keeps its contract does to the view
--     Seeds, Stock, Selections    the stores that the tests start from and fill, and what is listed
--     Passing                     such a store passes the tests, one file for each file of tests
--   Memory/Tests, Postgres/Tests, Conformance/Tests, Config/Tests, Command/Tests, Embedding/Tests, Server/Tests   small stores, a small
--                   database and a process, and the theorems applied to them
--
-- Correspondence. Functions and fields keep the source's names in snake case. A driver's operation is
-- a function of its state that returns an outcome and the new state; one operation is one atomic step,
-- as the mutex of memory.go makes it. What a call reads from its surroundings (the clock, uuid, random
-- bytes) comes in as an argument: Stamp for a driver, Readings for a handler. A time.Time is the
-- instant that it denotes, in nanoseconds since the zero time. An int64 is an integer; the program
-- only takes 1 from positive values, so nothing wraps. A nil map or pointer is `none`.
--
-- Parameters. SHA-256 is any function from texts to byte strings; timestamppb's conversions, the rate
-- limiter and the random bytes are arguments. The theorems on the service hold over any store that
-- keeps the contract. The contract has a precision: what the driver keeps of an instant and of a
-- metadata map, which texts and records it can hold, and to which instant the update of a revoked key
-- is set that is revoked again. The in-memory driver keeps and holds everything as it is, and leaves a
-- revoked key alone, as store.go promises; a TIMESTAMPTZ column keeps microseconds, a JSONB column
-- another text of the same value, Postgres refuses some texts (those with the character NUL), and its
-- driver sets the update of a revoked key to the clock, which store.go does not allow for. The instants
-- of the model are taken to be in the range of a TIMESTAMPTZ column. Of pgx and
-- the database the Postgres driver is given one call for each of its statements, and the record Engine
-- states the documented behaviour of these over tables with the constraints of the migration, while
-- the connection works; encoding/json is a parameter, of which only is assumed that limit references
-- that are written are read back. For the configuration, os.Getenv, strings.ToLower and net/url are
-- parameters; for the command and for the embedding host, a record System holds what the surroundings answer, and a trace of
-- events what the process did. That uuid.NewString does not repeat the id of a stored key, and that a
-- new hash differs from the stored ones, are named hypotheses where they are used.
--
-- Fuel. Only walks over the pages of ListKeys take fuel, one for each page: more than the number of
-- selected keys is enough, since each page but the last holds at least one.
--
-- The tests of the suite are actions that end at the first t.Fatal; messages are kept without their
-- arguments. Each subtest has its own store and surroundings: the stamps that the calls of the store
-- read, in order, and the instant that time.Now returns. That the uuids of a subtest differ, that its
-- clock is past the zero time, and that the driver keeps whole seconds and metadata of one entry are
-- the fields of Suits.
--
-- Not modelled: logging, contexts and generated registration code. Of the
-- conformance suite, the five subtests that mutate a value after a call are left out, since values are
-- immutable here; KeyListPageTokenCanSkipToInsertionPoint, which holds only if no key id is a prefix of
-- another; and KeyDecrementDepletedReturnsErrDepleted, which checks the value that is returned beside
-- the error, where a call of the model returns a value or an error.
pub mod Base
pub mod Store
pub mod Memory
pub mod Postgres
pub mod Keymat
pub mod Wire
pub mod Server
pub mod Config
pub mod Command
pub mod Embedding
pub mod Conformance
