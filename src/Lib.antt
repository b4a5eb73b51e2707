-- ===== src/Lib.antt =====
-- x402-agent-suite, a trust layer for agents that pay by x402: the core state machines and guards.
--
-- Shared idiom (Base): texts are lists of character codes, objects and SQLite tables keyed by a text
-- are association lists in the order of insertion (a key that names an inherited property of objects,
-- such as `constructor`, is left out), USDC amounts are whole micro-USDC, and
-- `x.toFixed(4)` is rounding to a multiple of 100 of them, so double-precision error is left out.
-- Clock readings, random ids and what node:crypto computes are arguments of the definitions. A store
-- that the source reads and writes as a whole is a value passed from call to call, which is one order
-- of complete calls. Human-readable messages and the confidence metadata of `withAgentTrust` are left
-- out: each return of a handler is one constructor.
--
-- Parts, by file:
--   EscrowFsm: src/protocol/escrow-fsm.ts, and the escrow that src/lib/verifier-probe-protocol.ts seeds
--     at the start of the server. Children: Lifecycle (paths through the states), Histories
--     and Invariant (any order of calls on the stores), Examples.
--   EscrowUnified: src/lib/escrow-unified.ts, the tables that EscrowFsm and EscrowLedger mirror their
--     records in.
--   EscrowLedger: src/lib/escrow-ledger.ts and the table escrow_records of src/lib/db-persistence.ts.
--   MeteredEscrow: src/agents/metered-escrow.ts.
--   WalletSessions: src/lib/wallet-sessions.ts.
--   X402Headers: src/lib/x402-headers.ts, the payment header that Idempotency and RateLimit look for.
--   RateLimit: src/lib/rate-limit.ts, and the chain of limiters that src/index.ts mounts on /api.
--   Idempotency: src/lib/idempotency.ts, and its place around the payment middleware in `createPost`
--     of src/routes/shared.ts, as a trace of arrivals, JSON responses and responses that
--     end otherwise.
--   NonceStore: src/lib/nonce-store.ts, where ReplayGuard (src/protocol/replay-guard.ts) consumes the
--     nonce of a binding.
--   MppStorage, MppPlan, MppSession: src/agents/mpp-session-v2.ts, with the functions of
--     src/lib/db-persistence.ts on mpp_sessions and the chain ids of src/lib/chains.ts.
--   HostPolicy: src/lib/host-policy.ts, which SpendGovernor (src/agents/spend-governor.ts and
--     src/lib/ledger.ts) asks about a call's host.
--   GuaranteePool: src/lib/guarantee-pool.ts.
--   Mandate: src/lib/mandate.ts. MandateDiff (src/agents/mandate-diff.ts) compares a trace of tool calls
--     with one.
--   CertifiedSellers: src/lib/certified-sellers.ts, with `runBondSlash` of src/agents/trust-network.ts.
--   FraudEngine: src/protocol/fraud-engine.ts.
--   WalletBlocklist: src/middleware/wallet-blocklist.ts.
--   Ssrf: src/lib/ssrf.ts, which RiskGate (src/agents/risk-gate.ts, src/lib/security.ts and
--     src/lib/agentic-gateways.ts) and Webhooks (src/lib/webhooks.ts) ask about a URL.
--   Migrations: src/lib/migrations.ts.
--   JsonDatabase: the stand-in for SQLite of src/lib/db.ts, with the statements that nonce-store.ts,
--     ledger.ts, db-persistence.ts and escrow-unified.ts of src/lib run over it.
--   ProtocolCrypto: src/protocol/crypto.ts, its Merkle roots included.
--   Base: names that the others share. Each Examples module holds runs of its parent.
--
-- A function of node:crypto, a Redis and the payment middleware are parameters, with what the code
-- relies on as named hypotheses (`TokenCrypto` and `IsCodec` of WalletSessions, for one). Every loop
-- of the sources modelled here runs over a list and is recursion on it, but for two on fuel: the
-- layers of a Merkle root, with as much fuel as there are leaves, since every layer has half the nodes
-- of the one before; and the digits of a number (Base.Numbers), with more fuel than the number.
--
-- Not modelled: HTTP routing, schemas, the probes and fetches of remote services, logging and
-- telemetry, which are I/O; the scores of reputation and trust, which are floating point; the agents
-- that build reports from remote answers; opening a database and the files that stores are written
-- to, which are I/O as well; the escrows by quality of delivery and the registry of partners; the
-- client, the packages and the site.
pub mod Base
pub mod EscrowUnified
pub mod EscrowFsm
pub mod MeteredEscrow
pub mod WalletSessions
pub mod X402Headers
pub mod RateLimit
pub mod Idempotency
pub mod NonceStore
pub mod ReplayGuard
pub mod MppStorage
pub mod MppPlan
pub mod MppSession
pub mod HostPolicy
pub mod SpendGovernor
pub mod EscrowLedger
pub mod GuaranteePool
pub mod Mandate
pub mod ProtocolCrypto
pub mod WalletBlocklist
pub mod Ssrf
pub mod Webhooks
pub mod Migrations
pub mod JsonDatabase
pub mod RiskGate
pub mod MandateDiff
pub mod FraudEngine
pub mod CertifiedSellers
