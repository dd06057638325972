-- ===== src/Runtime.antt =====
-- agent_ros/runtime/controller.py: the runtime that owns one gateway, one adapter and the audit log.
pub mod Errors
pub mod Ledger
pub mod Budget
pub mod Evidence
pub mod Flows
