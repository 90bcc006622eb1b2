-- ===== src/Lib.antt =====
-- SentinelGRC: the registry of compliance findings, the delivery of its events, and its records.
--
-- The registry (governance_core.py) keeps findings in a database. A finding is created or reassessed by
-- an import, its risk is assessed, a treatment proposed, approved or rejected, carried out, shown by
-- evidence, verified and closed. Each method is one transaction that changes the finding, appends an
-- event to the finding's hash chain, and adds one notice of that event to the table governance_outbox
-- and one to the table audit_exports. The workers of outbox_delivery.py and audit_delivery.py lease
-- these notices and hand them to a broker or to an archive. Findings of other programs enter through
-- the state store (state_store.py) and jobs of the pipeline through a queue (job_queue.py).
-- Controls are evaluated, and the evidence kept in a ledger, by sentinelgrc.py; audit_log.py keeps a log
-- of what was done. Failed controls become findings and tickets (scripts/governance.py, workflow.py).
-- Callers are known by keys (human_identity.py, scripts/agent_keys.py).
--
-- The files:
-- - Prelude: Boolean tests, equality as an instance, lists, and the texts of Python (`strip`,
--   hexadecimal identifiers).
-- - Governance.Types, Rows: governance_core.py, the words of the lifecycle and the tables.
-- - Governance.Exec, Method: results with one error for each `raise`, transactions, and methods as
--   functions from a database to a result and a database.
-- - Governance.Validate: `ActorContext`, `_require` and the validators.
-- - Governance.Events: `_event`. Governance.Mutate: `get_finding` and `_mutate`.
--   Governance.Transitions: what each method passes to `_mutate`.
-- - Governance.Lifecycle: `assess_risk`, `propose_treatment`, `approve_treatment`, `start_action`,
--   `verify`, `close`. Governance.Intake, Registry: `create_finding`, `upsert_finding`.
--   Governance.Submission: `submit_evidence`.
-- - Governance.Chain: `list_events`, `verify_event_chain`.
-- - Governance.Commits: histories of transactions, and what they keep.
-- - Delivery.Lease: the leased queue that both tables are. Delivery.Outbox: `GovernanceOutboxQueue`,
--   `OutboxMessage.from_item` and `OutboxWorker`. Delivery.Exports: `AuditExportQueue` and
--   `AuditExportWorker`.
-- - State.Jobs: job_queue.py, `SQLiteJobQueue`. State.Ingestion, Imports: state_store.py, the nonces,
--   payloads, pipeline runs and imported findings of `SQLiteStateStore`.
-- - Records.ChainFile: files of hash-chained lines. Records.AuditLog: audit_log.py. Records.Control and
--   Ledger: sentinelgrc.py, `evaluate_control`, the evidence ledger and `evaluate`, and the record of a
--   run in scripts/pipeline.py.
-- - Access.Identity: human_identity.py, `HumanIdentityStore`. Access.AgentKeys: scripts/agent_keys.py,
--   `AgentKeyRegistry`.
-- - Remediation: scripts/governance.py, the queue of failed controls and exceptions.
--   Remediation.Tickets: scripts/workflow.py.
-- - Exchange.Connectors: connectors.py with the identifiers of contract_validation.py.
--   Exchange.Publication: publication_reconciliation.py. Exchange.Worker: scripts/pipeline_worker.py,
--   `_process_claimed_job` and the files that become jobs. Exchange.Minisoar: minisoar_connector.py,
--   with the patterns of contract_validation.py.
--
-- How the model stands to the code:
-- - A database is a record of tables, and a table a list of rows in the order of insertion. A
--   transaction takes effect whole or not at all, and transactions follow one another: each holds the
--   write lock of the database. A method that reads before it writes reads the database in which
--   its transaction then runs; `submit_evidence` is the one whose own transaction reads again.
-- - The clock, the identifiers of uuid4, SHA-256, `date.fromisoformat`, the evidence store, the
--   publisher and the archive are arguments. Times and lengths are naturals. A round of a worker reads
--   the clock anew for its claim and for its settlement.
-- - The limit of a control is a natural number. A value of a posture may be any finite number; lists
--   and objects stand by their canonical JSON, so that two of them are equal if their texts are: of 1,
--   1.0 and True inside of them, which Python takes for equal, each is another.
-- - The details of an audit event come with their canonical JSON and with the equality that the code
--   tests, between them and what `json.loads` gives for a stored text.
-- - A pipeline run looks for its record and appends it under two locks: what others do to the ledger
--   between them is a function from a file to a file.
-- - An argument that the code tests with `isinstance` is a `Value`. A column with JSON text holds the
--   value that the text encodes.
-- - Nothing here needs fuel: every loop is a recursion on a list or a text.
--
-- Not modelled: the adapters of databases, stores and brokers, the HTTP boundary, authentication, the
-- migrations, the other documents of other programs, and the programs that collect evidence about the
-- repository itself.
pub mod Prelude
pub mod Governance
pub mod Delivery
pub mod State
pub mod Records
pub mod Access
pub mod Remediation
pub mod Exchange
