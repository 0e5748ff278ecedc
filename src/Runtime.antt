-- ===== src/Runtime.antt =====
-- src/litweave/runtime: error classes, the database and its transactions, budgets, runs, evidence, tools.
pub mod Errors
pub mod Json
pub mod World
pub mod Budget
pub mod Runs
pub mod Evidence
pub mod Gateway
pub mod Trust
pub mod Registry
