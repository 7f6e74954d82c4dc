-- ===== src/Lib.antt =====
-- Verification of the tetrac login SDK: passwordless accounts of an email, a wallet or a device.
--
-- A client asks the server for a challenge, signs it with a wallet or with a key derived from a
-- passkey, and presents the signature; the server consumes the challenge and issues a session.
-- The handlers (src/server/routes.ts) read requests through src/server/http.ts, verify signatures
-- (src/server/signature.ts) over the messages of src/core/index.ts and src/core/offchainMessage.ts,
-- and keep accounts, challenges, sessions and rate limits behind the port of src/storage/store.ts,
-- whose key-value implementation runs over an adapter such as src/storage/memory.ts.
--
-- Which file models what:
--   Prelude          texts as lists of UTF-16 code units, results, list and bit helpers
--   Effect           async code: an action on a world (state of a store, clock, random draws) that
--                    answers a value or a fault; what was written before a fault stays written
--   Core/Platform    what the program calls and does not hold (see below)
--   Core/Js          JSON values, since the handlers check the types of a body at run time
--   Core/Crypto      src/core/crypto.ts: timingSafeEqual, randomHex, checkPasskeyLength;
--                    Core/Crypto/Base64 has b64urlEncode and b64urlDecode, and Core/Crypto/Secrets the
--                    derivation of app keys, encryptSecret and decryptSecret
--   Core/Offchain    src/core/offchainMessage.ts
--   Core/Types       src/core/types.ts;  Core/Config  src/core/config.ts
--   Core/Messages    src/core/index.ts: walletLoginMessage, walletAppKeyMessage(Hw),
--                    authLoginMessage
--   Storage/Adapter  src/storage/adapter.ts and the port of src/storage/store.ts
--   Storage/Memory   src/storage/memory.ts, one function for each method
--   Storage/Kv       src/storage/store.ts: KvAuthStore and the session codec
--   Storage/Sql      src/storage/sql/engine.ts over any driver, the port of src/storage/sql/types.ts, the
--                    transaction of src/storage/sql/drivers.ts, and the tables of a database
--   Storage/Sql/Queue, Storage/Sql/Drivers  src/storage/sql/drivers.ts: the queue of sqliteDriver as a
--                    step relation, transactions on a connection of a pool, answers of mysql2
--   Storage/Sql/Drivers/Steps  those transactions in the steps that the port has here
--   Storage/Redis, Storage/Upstash, Storage/Resolve  src/storage/redis.ts, src/storage/kv.ts and
--                    src/storage/resolve.ts;  Storage/Sql/Create  src/storage/sql/index.ts
--   Storage/Contract what a store promises about challenges and sessions, as a machine
--   Storage/Conformance  src/storage/conformance.ts: the acceptance suite
--   Storage/Keys     src/server/keys.ts
--   Server/Http      src/server/http.ts;  Server/Signature  src/server/signature.ts
--   Server/Sessions  src/server/session.ts, src/server/challenge.ts, src/server/rateLimit.ts
--   Server/Validate  the validators and readWallets of src/server/routes.ts
--   Server/Next      src/next/routes.ts
--   Server/Routes    createAuthHandlers of src/server/routes.ts, a module for each handler
--   Client/Vault     src/client/session.ts: the app-key vault and the stored session of a tab
--   Client/Wallets   src/client/wallet.ts;  Client/AuthKey  src/client/authKey.ts
--   Client/Flows     src/client/authClient.ts: the flows of email and wallet accounts, unlock and
--                    reveal
--   Ledger           src/ledger/solanaSigner.ts: signMessage
--   Tests            small deployments, and the theorems at concrete inputs
-- The modules below one of these hold the proofs about it, named for what they are about.
--
-- State. A world holds the store's state, the clock and the number of random draws. A handler runs
-- from start to end with no other request between its steps. Numbers are natural numbers; loops are
-- structural, over the list, text or fuel of known length that the source walks, so no theorem
-- depends on a bound. The printer of decimals runs on fuel n + 1 for n, more than n has digits.
--
-- Parameters. The hash functions, ed25519, the Solana key codec, URL parsing, case mapping, UTF-8,
-- JSON texts, the streaming text decoder and the random source are fields of Platform, JsonCodec and
-- BodyParser: any functions.
-- The browser's WebCrypto, btoa and atob, tweetnacl and the generators of key pairs are fields of
-- WebCrypto, Base64, Signing and KeySource; a Ledger device is a function from the bytes that it is
-- shown to its answer; Client/Flows has a record Client of the replies of the server; Pool is what a
-- transaction calls of a pool.
-- A theorem that needs documented behaviour of one of them says so in its hypotheses.
--
-- The database. Storage/Sql/Tables gives a driver whose queries mean what SQL says of each statement
-- on the schema's primary keys, for one request at a time; a transaction sets the tables aside and a
-- rollback takes them back. It stands for the databases, which the repository does not hold; its one
-- failing statement is the INSERT of a taken address, and BEGIN and COMMIT do not fail in it.
-- Storage/Sql/Serves says what it is for a driver to serve such a database, and that the operations
-- on challenges and sessions cannot tell the two apart. Storage/Sql/FailClosed is about every driver.
--
-- Timing. The driver of SQLite is the one place where callers interleave: the steps of its queue are
-- BEGIN, one statement, COMMIT and ROLLBACK, in any order that the queue allows; Storage/Sql/Queue/Plain
-- is about statements that other callers run outside of it.
--
-- A flow of the browser waits for the server, for a wallet and for draws; these are parameters that may
-- change the page in any way. What is shown of a flow is for every predicate on pages that they keep.
--
-- Not modelled: the biometric flows, fetchUserData and logout of src/client/authClient.ts;
-- src/client/webauthn.ts and src/client/biometricUnlock.ts, which drive an authenticator; src/react
-- and src/ui; of src/ledger the transport, the hook and the signing of transactions, whose bytes
-- web3.js makes; the DDL, placeholders and preflight queries of the SQL dialects; the dynamic imports
-- of storage clients; and printed warnings.
pub mod Prelude
pub mod Core
pub mod Effect
pub mod Storage
pub mod Server
pub mod Client
pub mod Ledger
pub mod Tests
