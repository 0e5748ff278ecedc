-- ===== src/Schemas.antt =====
-- src/litweave/schemas: the structured outputs, and the constraints that a value must meet to be one.
-- A record holds a value whose fields have the declared types; `*_valid` is what pydantic's field
-- constraints and the validators of the source then demand of it.
pub mod PaperId
pub mod Planner
pub mod Research
pub mod Synthesis
