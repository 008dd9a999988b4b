-- ===== src/Lib.antt =====
-- istat: the OAuth proxy `jacquard-oatproxy` and the backend `server` of the status application.
--
-- The parts. The proxy stands between a client and the user's server: a client pushes a request
-- to `handle_par`, is sent to the upstream login by `handle_authorize`, comes back through
-- `handle_return` with a code, and exchanges it at `handle_token` for a token of the proxy. The
-- proxy keeps all of this in a storage backend, which the backend implements over SQLite. The
-- backend's moderation endpoints accept the proxy's tokens, its ingestors keep the tables of
-- emojis, statuses and profiles in step with the events of the network, and its queries show what
-- the tables hold.
--
-- The files.
--   Prelude, Outcome, Action: shared names, results that may be errors or panics, and code that
--     changes a state and may fail; what was written before a failure stays written.
--   Table, Text, Json, Http, Time: tables with a primary key, Rust's text operations, JSON values,
--     headers and responses, instants as nanoseconds.
--   Oatproxy/Error, Session, Store, Auth: jacquard-oatproxy/src/error.rs, session.rs, store.rs and
--     auth.rs, under the same names; Oatproxy/Store/Spec is what the handlers rely on of a backend.
--   Oatproxy/Config and Builder: jacquard-oatproxy/src/config.rs and the builder of server.rs.
--   Oatproxy/Jwt and Token: jacquard-oatproxy/src/token.rs, its parts without and with the key store.
--   Oatproxy/Dpop: the thumbprint helpers of jacquard-oatproxy/src/server.rs.
--   Oatproxy/Server: the handlers of jacquard-oatproxy/src/server.rs: Push and Par for `handle_par`,
--     one file for `handle_authorize`, one for `handle_return`, one for `handle_token` and
--     `handle_revoke` and one, Xrpc, for `handle_xrpc_proxy`; the two grants share `issue_tokens`,
--     which the source writes out twice.
--   Server/Db and Sql: the rows of server/migrations, and one SQL statement as it takes effect or fails.
--   Server/SqliteStore: server/src/oatproxy/store.rs, with the maps that its tables stand for in View.
--   Server/Moderation: server/src/xrpc/moderation.rs.
--   Server/Select and Query: server/src/xrpc/mod.rs, what SQL's clauses do with rows and the queries.
--   Server/Jetstream: server/src/jetstream.rs.
--   Server/Startup: server/src/main.rs, what it loads and builds before it serves.
--   Server/Invariant: what all of the backend's calls keep.
--   Example/MemoryStore: jacquard-oatproxy/examples/simple_server/memory_store.rs, a second backend.
--   Tests: runs at concrete inputs, with concrete functions in the place of third-party code.
--
-- How code corresponds. A function that touches the database or the network is an `Action` over
-- the state that it touches; `?` is the bind, a guard with an early return is `ensure`, an
-- ignored result is `ignore`. Random strings, the readings of the clock and the time stamps that
-- the database makes are arguments. The database carries a list of faults to come, so that every
-- statement may fail at any place. Log lines are left out. All loops are structural recursion, so
-- there is no fuel: the proxy's retry loop recurs on the retries left, one at first.
--
-- What is a parameter. base64, serde_json, sha2 and p256 are the record Crypto, with what is
-- relied on in IsSound; chrono's text forms and the JSON columns are SqliteStore/Externals, with
-- RoundTrips; the `jacquard_oauth` client, DID parsing and URL encoding are Oatproxy/Server's
-- Externals; URLs and the keys of `p256` are ConfigExternals and KeyExternals, with KeyLaws;
-- `jose_jwk` and the HTTP client of the XRPC proxy are ProofExternals and XrpcExternals, with
-- what is relied on in Network; the `dpop_verifier` crate is PushExternals, with what is relied
-- on in ChecksReplay; the generated lexicon types and HTTP requests are Jetstream's Externals;
-- those of the queries, with SQLite's `datetime`, are Query's QueryExternals. Text is ordered by
-- SQLite's BINARY collation, rows of equal times as in the table.
--
-- Not modelled: the routers and static files of server/src/main.rs and of the example server,
-- which are wiring, the generated lexicons, and the frontend, which is in another language. Dates
-- before 1970, the overflow of 64-bit times and the redirects that the HTTP client follows are
-- left out; requests run one after the other.
pub mod Prelude
pub mod Outcome
pub mod Action
pub mod Table
pub mod Text
pub mod Json
pub mod Http
pub mod Time
pub mod Oatproxy
pub mod Server
pub mod Example
pub mod Tests
