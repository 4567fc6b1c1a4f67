-- ===== src/Lib.antt =====
-- A verification library for model-hub, a gateway that runs AI tasks for its clients: it chooses a
-- provider for a task, bills the client, watches the health of the providers, and runs workflows
-- whose nodes are tasks.
--
-- Parts, with paths from the repository's root:
--
-- * Wallet (src/billing/wallet.service.ts) models the wallet of an API key. `Wallet` holds the
--   operations `ensure_wallet`, `freeze`, `unfreeze`, `debit`, `credit` and `record_transaction` as
--   functions on a `Service`, which is the database of wallets, the journal of transactions and the
--   low balance events. `Wallet/Spec` is the abstract view, accounts of free and held money;
--   `Wallet/Refines`, `Wallet/Solvency` and `Wallet/Audit` relate the two and the journal.
-- * Billing (src/billing/billing.service.ts) models the record of a task's costs: `create_record`,
--   `mark_pre_deducted`, `settle`, `mark_refunded`, `mark_failed`. `Billing/Lifecycle` is about
--   sequences of these calls.
-- * Billing/Adapter (src/billing/billing.adapter.ts, and `estimate` of src/billing/pricing.service.ts)
--   joins records and wallets: `init_billing`, `settle_task` for `settle`, and `refund` with its
--   retries, which `Billing/Adapter/Retry` is about. A call that throws answers with an `Outcome` and
--   the state it leaves behind.
-- * Circuit (src/provider-health/circuit-breaker.service.ts) models the circuit breaker of a
--   provider: `evaluate`, `record_result`, `manual_override`, `clear_override`, `allow_request`.
--   What a call decides is a `Plan`, which `commit` carries out through the compare-and-set of
--   `Circuit/Store` (src/provider-health/circuit-breaker-store.service.ts: a local cache before
--   Redis), on the texts of `Circuit/Text`, which models `serialize` and `deserialize` field by
--   field. `Circuit/Machine` is the machine of the states as a relation, `Circuit/Recovery`,
--   `Circuit/Commit` and `Circuit/ReadBack` are about sequences of calls and about interleavings.
-- * Circuit/Config (src/provider-health/circuit-breaker-config.service.ts) models defaults,
--   validation and updates of a breaker's configuration.
-- * Graph (src/workflow/execution-graph.resolver.ts) models the graph of a workflow: `resolve`,
--   `topological_sort` for `topologicalSort`, `get_parallel_nodes`, `resolve_node_input`.
--   `Graph/Links` and `Graph/Ready` read the graph off the edges of the workflow; `Graph/Lowering`,
--   `Graph/Layers` and `Graph/Layers/Sorted` follow the counts of Kahn's algorithm. `Graph/Cycles`
--   models `detectCycle`, which `Graph/Colours`, `Graph/Acyclic`, `Graph/Ending`, `Graph/Path` and
--   `Graph/Decides` are about, and `Graph/Validate` models `validate`, with `Graph/Configured`,
--   `Graph/Checks`, `Graph/Walks` and `Graph/Verdict` about its answer.
-- * Expression (src/workflow/safe-expression.service.ts) models the expressions of a workflow's
--   conditions: `tokenize` and `evaluate` in `Expression/Lexer`, `SafeExpressionParser`, which
--   evaluates while it reads, in `Expression/Parser` and `Expression/Operators`. The numbers of
--   JavaScript and its comparisons are a record `Language`, a parameter of the model. The abstract
--   view is `Expression/Syntax`, trees with a meaning and a way to write them; `Expression/Levels` to
--   `Expression/RoundTrip` follow the parser over the levels of operators, `Expression/Matching` to
--   `Expression/Evaluation` the tokenizer.
-- * Pool (src/provider/account-pool/strategies/weighted-round-robin.strategy.ts) models the smooth
--   weighted round robin over the accounts of a provider: `select` and its running weights. A weight
--   is an integer. `Pool/Weights` is about one selection, `Pool/Fairness` about a run of them.
-- * Limits models what keeps clients apart: `Limits/Rate` the sliding window and the slots of
--   src/redis/rate-limiter.service.ts, `Limits/Lock` the locks of src/redis/redis-lock.service.ts,
--   `Limits/Throttle` the logins of src/portal-auth/portal-login-throttle.service.ts. Redis is an
--   interface of each, with the laws the code relies on: `SortedSets`, `Locks`, `Counters`.
--   `Limits/Window` and `Limits/Serving`, `Limits/Slots`, `Limits/Attempts` are about runs of calls.
-- * Common holds what the parts share: signed integers over the native numbers, Boolean tests, lists,
--   JavaScript Maps as ordered lists of entries, and the interfaces to what is not in the repository:
--   `Collection` (a MongoDB collection under a unique key, with atomic conditional updates) and
--   `Expiring` (Redis keys that expire). Each has an instance on association lists.
--
-- Numbers and time. Amounts of money and usage are integers of any size, where the source has
-- floating point numbers; with whole credits the two agree up to 2^53. The error rate of a provider
-- is a `Double` of `Common/Double`, and its product with 100 is rounded as the source's is. A clock
-- is an argument, in milliseconds. Text keys are texts.
--
-- Fuel. `topological_sort` runs its loop on fuel, one unit for each level; the number of nodes plus
-- one is enough for any graph. The tokenizer of expressions has one unit for each character, the
-- parser one for each token and one more; every turn takes one away, and both are proved to be
-- enough. The depth first search for a cycle has one unit for each node, which is proved to be
-- enough; the climb along the parents, which writes down the path to report, has one for each
-- parent and one more. The rounding of a product with 100 drops seven bits at most. Everything
-- else is structural recursion.
--
-- Not modelled: user interfaces, controllers and DTOs, provider adapters, queues and polling,
-- notifications, administration, statistics, authentication and idempotency, the rest of the
-- account pool, provider routing, the execution of workflows. Logging is left out everywhere.
-- Queries that only read the database for a page of results are left out as well. Of expressions,
-- the places that error messages show are left out; of the validation of a workflow, the texts of
-- its messages, which constructors stand for.
pub mod Common
pub mod Wallet
pub mod Billing
pub mod Circuit
pub mod Graph
pub mod Expression
pub mod Limits
pub mod Pool
