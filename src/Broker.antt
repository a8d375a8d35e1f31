-- ===== src/Broker.antt =====
-- src/switchstand/agent_broker.py: the host-wide resource lease broker. Budgets, host pressure, the
-- ledger of leases, and the operations on it; files, directories and locks are not modelled.
pub mod Budget
pub mod Pressure
pub mod Ledger
pub mod Reserve
pub mod Release
pub mod Steps
pub mod Effect
pub mod Lifecycle
pub mod Capacity
mod Examples
