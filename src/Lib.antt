-- ===== src/Lib.antt =====
-- A model of acmex, a client library for the ACME protocol of certificate issuance, with proofs.
--
-- How the program is put together. `AcmeClient` (src/client.rs) registers an account and issues
-- certificates. For each call it builds managers: a directory manager and a nonce manager
-- (src/protocol/), an account manager (src/account/manager.rs) and an order manager
-- (src/order/manager.rs). All of them send signed requests (src/protocol/jws.rs, jwk.rs), each of
-- which takes an anti-replay nonce and keeps the one of its response. Challenge solvers
-- (src/challenge/) prove the control of a domain. Around the client stand a provisioning workflow
-- with retries (src/orchestrator/provisioner.rs), storage backends (src/storage/), and limits and
-- retry policies for requests (src/transport/).
--
-- Base: the libraries' names, Boolean tests, lists, Base/Dict for hash maps and
--   Base/TextOrder for the order of texts. Act: fallible code
--   that changes a state, with a panic as an outcome of its own; Act/Triple has its pre- and
--   postconditions, Act/Total the actions that do not panic or that return. Error: src/error.rs. Types: src/types.rs.
-- Net: the network as the state `World` sees it. The replies are a list, chosen freely by the server;
--   each request, response, sleep and effect of a solver is an event of the log. The same record
--   holds the nonce vector, the cached directory, the account id and the solver registry, since one
--   client call shares them. Platform: the operations of third-party code (keys, signatures,
--   hashes, base64, JSON), without any law.
-- Protocol: Directory, Nonce, Jws and Jwk after the files of src/protocol/ with these names; Request
--   is the signed request that the source spells out in each operation; NoncePool is
--   src/protocol/nonce_pool.rs. Fresh, Replied and Once hold the lemmas on nonces, on the last
--   exchange, and on what the log has shown at some moment. The files named so under Challenge,
--   Order, Client and Orchestrator carry the lemmas on.
-- Account, Order, Challenge, Client: the managers, the objects, the solvers and the client, and
--   Account/KeyRollover for src/account/key_rollover.rs. An
--   `async fn` is an action run to its end; `?` is the monad's bind. The authorizations loop of
--   `issue_certificate` is `authorize_all`, and what follows the created order is `complete`.
--   Challenge/DnsCache is the cache of src/challenge/dns_cache.rs, Challenge/Resolver the resolver
--   that asks it first, with the answers of the DNS as a list. The files named Results hold what an
--   operation has learnt from the server when it returns.
-- Storage: Backend is the trait with the contract its users rely on, Memory and Encrypted implement
--   it, and Certificates and Migration use it; AnyOrder is on the names under which a bundle is kept.
--   Files and Redis are the backends of src/storage/file.rs and redis.rs: the files of a directory
--   and the values of a server as associations, and how the next calls end as a list of faults. Paths
--   and Unlisted hold lemmas on the files, RedisMap the contract of the Redis backend. Transport: HttpClient and Middleware are
--   src/transport/http_client.rs and middleware.rs. Limiter is `RequestLimiter` as a relation
--   of threads' steps, Retry the retry policy. Orchestrator: the provisioning workflow.
-- Scheduler: Renewal is `AdvancedRenewalScheduler` of src/scheduler/renewal_scheduler.rs as a relation
--   of steps between its channel, its queue and the spawned renewals, Draining its way to the end. The
--   loop's look at the heap, its waiting and the notifications are steps too.
-- Config: src/config.rs and src/ca.rs. Settings are the sections and their defaults, Ca the
--   authorities, Load what resolves, loads, overrides and validates; Overrides and Results hold the
--   lemmas.
-- Notifications: src/notifications/mod.rs, with the network of the webhooks as a state of its own
--   (Send). Results counts the requests and the sleeps of one webhook; Reach follows an event through
--   all of them.
-- Certificate: X509 is what the program reads of a parsed certificate, with the parts of
--   src/order/csr.rs that read it; Chain and Ocsp are the files of src/certificate/. Crypto: Hex is
--   the hexadecimal encoding of src/crypto/encoding.rs.
-- Renewal: src/renewal/mod.rs, the test of a certificate's expiry (Window) and a round over the sets of
--   domains (Scheduler), with its Results. Scheduler/Cleanup is src/scheduler/cleanup_scheduler.rs and
--   Swept its lemmas; Orchestrator/Renewer and Validator are the files of these names.
--   Instants are counted from the earliest timestamp, so that they are natural numbers.
-- Dns: src/dns/providers/. Rest is a service as the list of its replies with the requests that were
--   sent; Zones is the zone and the record's name in godaddy.rs; Godaddy, Cloudflare, Linode,
--   Digitalocean, Azure, Cloudns, Google, Huawei, Tencent and Alibaba are the files of these
--   names. Requests follows what GoDaddy's client asks.
-- Server: src/server/. State is what the handlers share, with the jobs that they leave to the
--   background; Auth, Account (with the handler of webhook.rs), Order, Certificate and Health are the
--   handlers. Tasks lets requests and background tasks change the map of tasks in any order; Jobs has
--   the lemmas on one change, Sound and Kept what holds in every run.
-- Cli: src/cli/commands/. Machine is what a command runs on: files, a clock, the network and the
--   daemon's mails; Pem what it calls of the x509-parser crate and of formats. Obtain, Renew, Daemon
--   and Account are the files of these names, the last with the revocation of cert.rs; Credentials is
--   src/account/credentials.rs. KeyFiles, Notices, Placeholder, Rotated and
--   Untouched hold the lemmas. A wake
--   of the daemon is a branch of its `select!`, and its loop a recursion on the list of them.
-- Tests: runs at concrete inputs.
--
-- Bounds. The polling loop is a recursion on the attempts that are left, as many as the caller
-- grants; provisioning recurses on four attempts; the other loops are recursions on lists. No
-- definition has other fuel. A webhook's loop recurses on the attempts left, at most `max_retries`.
--
-- Not modelled: the float token bucket, the client of Route53, the counters of metrics, the parser of
-- the command line and the commands that only print or start the server, which are input and output
-- or third-party interfaces; the cryptography behind src/crypto/ but for its hexadecimal text;
-- logging, and the timing of concurrent tasks beyond the request limiter's.
pub mod Base
pub mod Error
pub mod Types
pub mod Act
pub mod Net
pub mod Crypto
pub mod Dns
pub mod Notifications
pub mod Certificate
pub mod Challenge
pub mod Platform
pub mod Account
pub mod Order
pub mod Protocol
pub mod Client
pub mod Config
pub mod Transport
pub mod Storage
pub mod Orchestrator
pub mod Renewal
pub mod Scheduler
pub mod Server
pub mod Cli
mod Tests
