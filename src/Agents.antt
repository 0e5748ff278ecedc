-- ===== src/Agents.antt =====
-- src/litweave/agents: the nodes of the planner and the researchers.
pub mod Planner
pub mod Wide
pub mod Deep
