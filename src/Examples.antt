-- ===== src/Examples.antt =====
-- Runs of the model at concrete inputs: one small survey with one section, one paper and one item of
-- evidence.
pub mod Data
pub mod Stores
pub mod Nodes
pub mod Survey
pub mod Commands
pub mod Servers
pub mod Templates
