-- ===== src/Lib.antt =====
-- nano-mockidp: an OAuth 2.0 and OpenID Connect provider for tests, which keeps its state in memory.
--
-- A browser asks /authorize for a code, a client exchanges the code at /token for an access token,
-- an ID token and a refresh token, and resource servers ask /introspect and /userinfo about them.
-- Clients end logins by /revoke and /end_session, and an administrator disables subjects and ends
-- sessions by /admin. All handlers share one store behind a lock (src/state.rs, src/store.rs), and
-- a timer sweeps it. An optional gate sends browsers to an upstream provider first (src/upstream).
--
-- How the model corresponds to the code:
--   Base         strings, bytes, Booleans and options, the bit operations, a map with distinct keys,
--                `Result`, and `Handler`: a computation that reads and changes a state, and may fail
--   Json, Http   `serde_json::Value`; headers, responses and `OAuthError` (src/error.rs)
--   Crates       the third-party functions as a record of parameters, their documented behaviour
--                as hypotheses (`IsFaithful`, `ReadsBack`), and the signing key (src/keys.rs)
--   Config       src/config.rs: the settings and `Config::issuer`; Parse, UpstreamSettings and Load
--                are `from_map`; GateSound, Sound and Numbers are about it
--   Keys         src/keys.rs: where the signing key comes from and the published key set; Published
--                is about them
--   Store        src/store.rs: Data the types, Ops the methods, Listing `sessions`; Expiry,
--                Invariant, Revocation, Revoked (with the sweeper of src/lib.rs), Refinement,
--                Grouping and Sessions are about them
--   Token        src/token.rs: Issue the claims and `issue`, Jws `sign` and `verify_signature`,
--                Verify `verify` and `verify_allow_expired`; Claims, Signature and Acceptance are
--                about them
--   Urls, State  src/urls.rs and src/state.rs: the base of a request, the issuer, the endpoints, and
--                what the handlers share
--   Upstream     src/upstream/gate.rs: Seal the sealed cookies, Gate the other functions;
--                src/upstream/client.rs: Wire the network and the caches, Jwks the key set, Client the
--                requests, IdToken `verify_id_token`; src/upstream/mod.rs: Login. Opening, Discovery,
--                KeySet, IdTokenChecks, Admission, Entry, Return, SignedIn, Headers and Replies are
--                about them
--   Routes       src/routes: Client, TokenForm, Grants and Token are token.rs; Validate,
--                LoginPage (with src/login.rs) and Authorize are authorize.rs; Revoke, Introspect,
--                Userinfo, EndSession (session.rs), Admin and Register (with discovery.rs) are the other
--                handlers; Granted, Exchange, Rotation, Steps, GrantSteps, TokenErrors, LoggedIn, LoginFlow,
--                Inactive, Logout, Authentication, Authorization, AdminGuard, Answers and Answered are
--                about them
--   Router       src/routes/mod.rs, src/routes/jwks.rs and src/routes/health.rs: what is mounted;
--                Mounted is about it
--   Server       the requests and sweeps that change the store, in any sequence; Kept, Tokens,
--                Logins, Tables and Vouched are the invariant of the store that they keep. Frame is
--                a rule for what the elementary changes of a store keep; Requests, Once, LoginFlow,
--                Revoked and Registered follow codes, tokens and clients through such a sequence
--   Startup      `AppState::new`, `Gate::new`, `Upstream::new` and the chain of `main` up to the
--                built state; Program is the whole of src/main.rs and `build` of src/lib.rs. Built,
--                Defaults and Run are about them
--   Tests        the theorems at concrete inputs
--
-- How state, time and chance are modelled. A handler is a function from the store to its answer and
-- the new store. The runtime has one thread and the modelled handlers do not await after their
-- first access to the store, so that each runs as one step. What a handler wrote before it failed
-- stays written. The readings of the clock and the random tokens of a request are functions of
-- the call site (`Env`), with no assumption on them: a theorem that needs the clock not to go back
-- says so. An instant is a number of nanoseconds since the epoch, and the clock is not before the
-- epoch; an overflow of `SystemTime` is not modelled. The sum of two `u64` wraps, as in a release
-- build. A panic of `expect` is the answer `none`.
--
-- The upstream login awaits the network, so that tasks interleave. Its state is the three caches of
-- the client. An await is a `Moment`: what a server answers to each request, what the other tasks
-- do to the caches meanwhile (any function), and the clock before and after it. The awaits of a handler
-- are numbered by their call sites (`Network`). A login itself is kept in the browser's cookie.
-- The reading of the settings takes the environment as a map, with serde's reader of `CLIENTS` and the
-- texts of integer errors as parameters (`Readers`); the start takes the file system, the RSA
-- generator, the PEM readers and the builder of the HTTP client (`KeyStore`, `Machine`).
--
-- Bounds and fuel. The decimal text of a number is made with 20 digits (Base/Text), which is
-- enough below 2 ^ 64. No other definition has fuel: the rest is structural recursion.
--
-- Not modelled: axum's matching of paths, the methods and headers of CORS, the timer of the sweeper
-- (src/routes/mod.rs, src/lib.rs: a sweep may come at any time), the build without the feature
-- `upstream`, and the log messages of handlers. What binding the port and serving end with, the
-- files, and the page that is built in are parameters of the model. URLs, form bodies, base64,
-- hashes, RSA, PEM and the text of JSON are the third-party crates'.
pub mod Base
pub mod Json
pub mod Keys
pub mod Crates
pub mod Config
pub mod Http
pub mod Store
pub mod Token
pub mod Urls
pub mod Upstream
pub mod State
pub mod Routes
pub mod Server
pub mod Startup
pub mod Router
mod Tests
