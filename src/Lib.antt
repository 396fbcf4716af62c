-- ===== src/Lib.antt =====
-- A model of EDGAR-MoE's prospective research platform, in the parts that keep its evidence: the
-- registry of forecasts, its status and alerts, the triggers that guard its tables, the stores of
-- its artifacts, the cycles that write it, the times at which filings may be acted on, and the
-- agent loop of its research copilot.
--
-- The parts and their files:
--
-- - Registry models src/edgar_moe/forward/registry.py over the rows of
--   src/edgar_moe/forward/models.py and the records of src/edgar_moe/forward/domain.py.
--   Registry/Records has the records and the database, a record with one list of rows per table.
--   Registry/Session has a transaction as a function from the database to a result and the next
--   database; `transaction` is `RegistryDatabase.session` of src/edgar_moe/forward/database.py,
--   which commits on return and rolls back on an exception. Registry/Registrations, Registry/Runs
--   and Registry/Batches have the nine writing methods under their own names, Registry/Commands
--   puts them into sequences, Registry/Status has `status` and Registry/Reads the other queries.
-- - Alerts models the classification in src/edgar_moe/forward/alerts.py and hands it what
--   `status` returns.
-- - Immutability models what the triggers of src/edgar_moe/forward/immutability.py do with a
--   changed row, and the statements of any client, one row at a time.
-- - PartialWrite models src/edgar_moe/forward/partial_write.py on top of the registry's methods.
-- - Workflow models `ForwardWorkflow` of src/edgar_moe/forward/workflow.py with `FrozenModelSpec`
--   of src/edgar_moe/forward/config.py. A process reads and changes the registry and the artifact
--   store and may raise; Workflow/Cycle has `forecast` and `settle` with their `try` bodies and
--   handlers, each call of the registry a transaction of its own; Workflow/Checks and
--   Workflow/Matching have what they test and match.
-- - Artifacts models the local and the mirrored store of src/edgar_moe/forward/artifacts.py.
--   Whether the disk takes a new object is a parameter, and a mirror may change although its
--   write raises.
-- - Reconciliation models src/edgar_moe/forward/reconciliation.py over the registry's list of
--   artifacts and the stores of Artifacts.
-- - Copilot models `ResearchCopilot.ask` and the provider client of
--   src/edgar_moe/copilot/agent.py, over the records of src/edgar_moe/copilot/contracts.py;
--   Copilot/Verification models the tests of an answer in src/edgar_moe/copilot/verification.py,
--   and Copilot/Policy the identities of src/edgar_moe/copilot/policy.py, both for fields that
--   have their types; Copilot/Tools models the read-only tools of src/edgar_moe/copilot/tools.py
--   over what Copilot/Sources has, and the agent is then given them, and Copilot/Baseline the
--   fixed navigation of src/edgar_moe/copilot/baseline.py over them.
-- - Drift models the readiness gate of src/edgar_moe/features/drift_readiness.py over the
--   aggregates of src/edgar_moe/features/drift_history.py.
-- - Timing models the choice of sessions in src/edgar_moe/utils/time.py, the check of event times
--   in src/edgar_moe/data/contracts.py and the split of src/edgar_moe/modeling/split.py, over a
--   calendar that is a parameter.
-- - HistoricalIdentity models the check digit of src/edgar_moe/data/historical_identity.py.
-- - Common has the tests, lists, tables and results that the parts share.
--
-- How the state corresponds. A table is the list of its rows in the order of insertion, and a
-- query inside a transaction sees the rows that were added before it. A constraint of a table is
-- tested where a row is added, and its violation is an error of its own. Each transaction is
-- given a moment: the clock and the identifier of its audit event. A time is its UTC instant in
-- microseconds; JSON values, dates and floats that the registry only stores, hashes and compares
-- are texts. The code of other packages (JSON, SHA-256, text and path functions, floats,
-- transports, the clock) is an argument of the definitions that call it.
--
-- Loops. The agent's loop runs over its own range of `max_tool_calls + 1` rounds; a round without
-- an answer counts at least one call, so the budget ends it before the range does. The provider's
-- retry loop is given `max_retries + 1` units of fuel; each attempt uses one, and the code makes
-- another only while `attempts <= max_retries`, so they are enough. Every other loop is over a
-- list.
--
-- What other code raises. The agent's calls of `json.loads`, of a tool and of `str.encode` may
-- raise errors that the agent does not catch; a parameter says where, and each is an error of its
-- own. The order of absent times in the registry's status is that of SQLite.
--
-- What is not modelled: `performance` of the registry, the numerical code (training, portfolios,
-- drift statistics, confidence intervals), the data clients, the HTTP service, the command line
-- and the reports, which are about floats, frames, files and the network. Concurrent transactions
-- are taken one after another, as the database isolates them.
pub mod Alerts
pub mod Artifacts
pub mod Common
pub mod Copilot
pub mod Drift
pub mod HistoricalIdentity
pub mod Immutability
pub mod PartialWrite
pub mod Reconciliation
pub mod Registry
pub mod Timing
pub mod Workflow
