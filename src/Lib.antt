-- ===== src/Lib.antt =====
-- Verification of honey, the master of a fleet of proxy nodes.
--
-- The master keeps nodes, inbounds and subscribers in a database, serves an HTTP API to admins and
-- resellers and a subscription endpoint to clients, pushes configurations to the agents on the nodes,
-- and counts the traffic that they report. The parts that are modelled, each in a module of its name:
--
-- - RateLimit (master/src/ratelimit.rs): `LoginLimiter` and `SubscriptionLimiter`. The maps are
--   association lists, instants are nanoseconds, and the clock's readings are arguments.
-- - Traffic (master/src/db/repo.rs, master/src/stats.rs, master/src/db/models.rs,
--   master/src/spec.rs): `record_traffic` as one transaction on the tables that it touches,
--   `reset_user_traffic`, the loop of `subscribe` over one message, and what the totals mean for a
--   user. Histories are lists of samples and resets.
-- - Election (master/src/ha.rs, `ha_try_acquire` in master/src/db/repo.rs): the lease, the flag and,
--   in Steps, all instances together, where a tick is an upsert and, later, its answer.
-- - Api: `ApiError`, results and JSON values, as master/src/api/mod.rs uses them.
-- - Inbound (master/src/api/mod.rs, master/src/db/repo.rs, master/src/db/models.rs): the rows (Store),
--   the checks of a request (Validate), the reverts to earlier versions (Store) and the multihop chains
--   of the two handlers (Chain). A chain is
--   walked for at most 8 hops, the bound of the source's loop.
-- - Access (master/src/auth.rs, master/src/api/mod.rs): identities, the scopes of a path, the guard
--   `require_auth`, API keys and custom roles. The tables, the hash of a token and the parsing of
--   addresses are fields of `Environment`.
-- - Registry (master/src/registry.rs, `start_node_push` and `finish_node_push` in
--   master/src/db/repo.rs): deferral, pushes and the reconcile step. The specification that is built
--   and the agent's reply are arguments.
-- - Users (master/src/api/mod.rs, master/src/db/repo.rs): `create_user` and `update_user`, with the
--   caps and the scope of a reseller.
-- - Addresses (master/src/wg.rs, master/src/geo.rs): the address that a WireGuard peer is given, and
--   the range of the location table that answers for an address.
-- - Issues (master/src/issues.rs): the health snapshot, the issues derived from each kind of row, and
--   the response with its order and counts.
-- - Spec (master/src/spec.rs): how the inbounds of a node's specification are built from the rows, the
--   summary of a specification, and the preview of a push. The hash, the text of a JSON value and the
--   outbound to an exit are arguments.
-- - Notify (master/src/notify.rs, `record_system_notification` in master/src/db/repo.rs): `alert` up to
--   the dispatch, with the database answering or not.
-- - Monitor (master/src/monitor.rs): a tick of the device limit.
-- - Logs (master/src/logbuf.rs, `validate_log_query` in master/src/api/mod.rs): the ring of records, the
--   capture of an event and the search.
-- - Updates (master/src/update.rs): versions, the choice of an asset, the listing of hashes and `apply`
--   up to the swap of the binary.
-- - SignIn (master/src/api/mod.rs, master/src/db/repo.rs) and RecoveryCodes (master/src/auth.rs,
--   master/src/db/repo.rs): `login`, `logout` and the tables that they read and write. The
--   verification of passwords and codes is an argument.
-- - Fleet (master/src/db/repo.rs, master/src/api/mod.rs, `authorize_certificate` in
--   master/src/registry.rs): nodes with their reverts and the nodes of an applied
--   configuration, enrollment tokens and certificates. Histories are lists of operations.
-- - Audit (master/src/auth.rs, master/src/db/repo.rs, master/src/api/mod.rs): the hash chain of the audit
--   log, recorded and verified. The digest is an argument.
-- - Loops (master/src/quota.rs, master/src/schedule.rs, master/src/db/repo.rs): a tick of the quota
--   windows and a tick of the scheduled operations, and (Requests, master/src/api/mod.rs) the requests
--   behind them.
-- - Reconcile (master/src/reconcile.rs, `connect_serve` and `heartbeat` in master/src/registry.rs): a
--   tick of the reconcile loop over Registry and the certificates of Fleet.
--
-- The guard of Access stands in front of the handlers of Inbound and Users; a handler that changes a
-- row asks Registry for a deferred push; Traffic decides who is left out of the configuration that the
-- push carries; Election decides which instance runs the loops that push and count. Spec turns the rows
-- of Inbound and the users of Traffic into what Registry pushes; Issues and Monitor watch the result
-- and raise what Notify dispatches. SignIn opens the sessions that the guard of Access looks up; Loops
-- acts on the tables of Traffic.
--
-- Prelude holds the tests, lists, texts and maps that the parts share; Witness runs the models on
-- concrete values. Numbers are natural numbers; a counter of 32 or 64 bits that wraps or saturates does
-- so where it is modelled, and a signed number of a request keeps its sign. The loops run over lists, or
-- over the source's own bound; only the printing of a number of 64 bits has fuel, for its 20 digits at
-- most.
--
-- Not modelled: the agent (agent/), the web panel, deployment, the SQL schema beyond its defaults,
-- rendering of subscriptions, cryptography and TLS, the Telegram bot, the channels of notifications, the
-- anomaly and drift scans, file operations of the self-update. Within the parts above, one request or
-- transaction runs at a time, and the database answers where an error is not spelled out: the loops
-- spell out a reset, an advance of a window and the record of an outcome that fail.
mod Prelude
pub mod RateLimit
pub mod Traffic
pub mod Election
pub mod Api
pub mod Inbound
pub mod Access
pub mod Registry
pub mod Users
mod Witness
pub mod Addresses
pub mod Issues
pub mod Spec
pub mod Notify
pub mod Monitor
pub mod Logs
pub mod Updates
pub mod RecoveryCodes
pub mod SignIn
pub mod Fleet
pub mod Audit
pub mod Loops
pub mod Reconcile
