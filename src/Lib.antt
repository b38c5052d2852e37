-- ===== src/Lib.antt =====
-- NAP, the Nostr authentication protocol: the core (packages/nap-core), the server
-- (packages/nap-server), its Express adapter (packages/nap-adapter-express), the authorization by
-- vouchers (packages/nap-voucher) and the session of the web client (packages/nap-client-web).
--
-- A client asks for a challenge (`issueChallenge`), signs a NIP-98 event over it and completes it
-- (`verifyCompletion`), which opens a session with an access token and, where refresh is configured,
-- a refresh token; `refreshSession` rotates both. The server keeps challenges and sessions in stores,
-- asks a resolver for the principal's roles and permissions, counts requests in a rate limiter, and
-- reports to an audit logger and a metrics recorder. The adapter turns requests into these calls and
-- guards the application's routes by the session of a request's token. The voucher package is a
-- resolver: it lets in the holder of a voucher that an allowed mint has signed for a listed issuer and
-- that is locked to the holder's key.
--
-- The files:
--   Base, Text, JsMap            numbers, options and lists; strings; `Map`
--   Core/Types, Core/Errors      packages/nap-core/src/types.ts and errors.ts
--   Core/Codec                   codec.ts: `encodeBase64Bytes`, `decodeBase64Bytes`, `hexToBytes`, …
--   Core/Json, Core/Platform     parsed JSON; what the code calls and does not implement
--   Core/Proof                   header.ts, url.ts, hash.ts and validate.ts: `verifyNip98Completion`
--   Server/RateLimit             packages/nap-server/src/rateLimit.ts: `createInMemoryRateLimiter`
--   Server/Stores                the store, resolver and limiter interfaces of types.ts
--   Server/Challenges            memory.ts: `InMemoryChallengeStore`
--   Server/Sessions              memory.ts: `InMemorySessionStore`
--   Server/Acl                   acl.ts and `InMemoryAclStore` of memory.ts
--   Server/Audit                 metrics.ts and guard.ts
--   Server/World                 the options, and the state that a request works on
--   Server/Clamp, Server/Request `clampTtlToDecision`, `padAuthResponse`, `parseAuthCompleteRequest`, …
--   Server/Issue                 server.ts: `issueChallenge`
--   Server/Complete              server.ts: `verifyCompletion`
--   Server/Refresh               server.ts: `refreshSession`
--   Server/View                  server.ts: `toPublicAuthSuccess`, `resolveEffectiveAcl`, …
--   Server/Audience              audience.ts: `createAudienceHostAllowlist`
--   Express/Http                 packages/nap-adapter-express/src/adapter.ts: requests and cookies
--   Express/Guards               `requirePermission`, `requireRole`, `requireStepUp`, `requireSession`
--   Express/Handlers             the handlers of `/init`, `/complete`, `/session`, `/logout`, `/refresh`
--   Voucher/Platform             what packages/nap-voucher calls and does not implement
--   Voucher/Allowlist            allowlist.ts: the allowed mints, and the issuers of each
--   Voucher/Secret               secret.ts: `parseVoucherSecret`, `voucherCanonicalBytes`
--   Voucher/Availability         availability.ts: `createMintAvailabilityPolicy`
--   Voucher/Dleq                 dleq.ts: `verifyProofDleq`, `hashToCurve`
--   Voucher/Mint                 mintClient.ts: `createMintClient`
--   Voucher/Options              resolver.ts: the options of the resolver, the codes and the events
--   Voucher/Resolver             resolver.ts: `createVoucherAclResolver`
--   Client/Session               packages/nap-client-web/src/session.ts: `createNapSession`
--   Tests                        the theorems at concrete inputs
-- A module under a part holds the proofs about it.
--
-- How the program is modelled. A string is the list of its UTF-16 code units; case mapping is that of
-- ASCII. Times, counts and the numbers of a JSON document are whole numbers from 0 on. `null` and
-- `undefined` are `none`; an empty string and 0 are false where the code tests a value for truth. A
-- `Map` is a list of entries with distinct keys. An `async` function of a request is a function on the
-- state of the server (`World`) that returns a value or a failure; requests are run one after another,
-- as the in-memory stores do between two awaits, and a clock reads the same throughout a request. The
-- sessions are objects that four maps share, so they are a heap with references; challenges are
-- replaced as values. A store may fail where the server catches its error, which is at `create`.
-- A sink of events is the list of what it was given. The bitwise sums of the base64 code are sums of
-- numbers with no common bit. Loops are recursions on the list that they go through, without fuel, but
-- for that of `hashToCurve`, a recursion on the 2^24 counters that are left, the bound of the code.
-- `JSON.parse`, `TextEncoder`, `TextDecoder`, `URL`, SHA-256, the signature checks and `nip19` are
-- fields of `Platform` and `VoucherPlatform`, about which nothing is assumed. The points of a curve are
-- a type of their own with the library's operations; that they are a group is a hypothesis
-- where it is used. A mint is what answers `getKey` and `checkState`, over a state of its own; while the
-- mint client waits for an answer, other calls may change its state as they please (`meanwhile`).
-- A tab of the web client goes from state to state by the calls of the application, the messages of
-- other tabs and the answers that its own calls have waited for, in any order.
--
-- Not modelled: the Fastify adapter, the JSON parser, the routers and `validatePermissions` of the
-- Express adapter, the requests, signers, stores and timers of the web client, the React bindings,
-- the PostgreSQL store, and the timers behind the padding of an answer.
pub mod Base
pub mod Text
pub mod JsMap
pub mod Core
pub mod Server
pub mod Express
pub mod Voucher
pub mod Client
pub mod Tests
