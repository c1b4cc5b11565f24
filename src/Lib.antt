-- ===== src/Lib.antt =====
-- Portfolio manager: the domain's values, the port for broker connectors, the Zerodha connector,
-- what is kept of logins and secrets, and the check of the architecture.
--
-- The program collects raw artifacts from a broker for later normalisation. An application asks a
-- connector, through the port, for some capabilities; the Zerodha adapter turns each of them into
-- requests to Kite's endpoints, which a transport over HTTP makes with a session; the session comes
-- from a login, which a nonce binds to a tenant and a connection. The domain's values are what the
-- artifacts are normalised to. Between the two halves of a login its nonce is kept in a table, and a
-- broker's secrets are kept encrypted, bound to the record that they belong to. A script holds the
-- packages to the imports that architecture.toml allows. Paths below are from
-- packages/X/src/portfolio_manager/, except for scripts/.
--
--   Base          Python's lists, strings, integers and exceptions. `Result` is a value or an
--                 exception; `Exec S A` is an asynchronous method over a world `S`, where what was
--                 done before an exception stays done. `if test: raise e` is `raise_if test e`.
--   Domain        domain/: Identifiers and Identifiers/Written (identifiers.py), Temporal
--                 (temporal.py), Numeric (numeric.py), Quality (quality.py), Ownership and
--                 Ownership/Instruments (ownership.py), Scope (scope.py), Observations
--                 (observations.py), Activities and Activities/Record (activities.py).
--   Application   application/connectors.py: the vocabulary of the port; in Collection the requests,
--                 outcomes and results.
--   Connectors    connectors/: Kite and Zerodha (zerodha.py), Http and Http/Transport
--                 (zerodha_http.py), Auth, Auth/Service, Auth/Exchange and Auth/Expiry
--                 (zerodha_auth.py).
--   Persistence   persistence/: NonceStore (nonce_store.py, and its row in models.py), Envelope,
--                 Envelope/Cipher and Envelope/KeyFile (envelope.py), Schema/Models (models.py) and
--                 Schema/Migration (packages/persistence/migrations/versions/0001_auth_persistence.py).
--   Architecture  scripts/check_architecture.py: Policy (`load_rules`), Cycles (`detect_cycles`),
--                 Matching (`match_module`), Imports (`check_imports`) and Main (`main`).
--   Tests         small brokers, clients and stores, and the theorems at them.
--
-- A class is a record with the class's fields; putting `X(…)` together is the record and then
-- `x_post_init`, the class's `__post_init__`, which gives the normalised record or the exception.
-- Methods keep their names without the leading underscore. The loops of `collect` are `fetch_endpoints`
-- and `collect_capabilities`, whose records `Fetched` and `Collected` hold the loops' variables; the
-- `try` of a round is `fetch_artifact`, and its handler is in `after_fetch`. The loop of
-- `_read_bounded` is `read_chunks`. Every loop is structural recursion. The one function that calls
-- itself is `visit`, in `detect_cycles`: its `frames` are what Python's recursion limit leaves it, and
-- without a frame it raises RecursionError. More frames than the policy has modules are enough.
--
-- Timestamps are microseconds since the year 1 with an offset, bounded as `datetime` is. Texts are
-- lists of code points. Sets are lists in the order of their iteration; `set_of` drops repetitions.
--
-- Parameters: SHA-256 (`sha256_hex`), the decimal digits of Unicode beyond ASCII that `int` reads
-- (`unicode_decimal`), httpx (`stream`, which sends a request and gives a response or an
-- exception), pydantic (`model_validate_json`), the offsets of Asia/Kolkata (`offset_at_utc`,
-- `offset_at_wall`), the clocks, the sources of nonces and of random UUIDs, the nonce store and,
-- for the authorization service, the token exchanger; SQLAlchemy's session with the database
-- behind it (`AsyncSession`), the package cryptography (`Cryptography`), the random bytes
-- (`token_bytes`), the file of a key (`FileSystem`); what tomllib reads of the policy (`Config`),
-- and the files and syntax trees of the packages (`SourceTree`). What is assumed of them stands in
-- the hypotheses `IsGoodResponse`, `IsAware`, `IsNonceStore`, `IsNonceTable`, `IsCipher`,
-- `IsAuthenticating`, `IsRandom` and the sections of the theorems.
--
-- Not modelled: reading a `Decimal` from text, opening and closing HTTP clients, what Alembic and
-- PostgreSQL make of a migration, the arguments and the printed text of the script, the errors of
-- listing a directory, values of the policy file that have another type than expected, and the
-- packages that hold no code.
pub mod Base
pub mod Domain
pub mod Application
pub mod Connectors
pub mod Architecture
pub mod Persistence
pub mod Tests
