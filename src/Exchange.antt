-- ===== src/Exchange.antt =====
-- What comes in from other systems: connectors.py with contract_validation.py, and
-- publication_reconciliation.py, and scripts/pipeline_worker.py.
pub mod Connectors
pub mod Publication
pub mod Worker
pub mod Minisoar
pub mod Tests
