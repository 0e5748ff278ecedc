-- ===== src/Tools.antt =====
-- The lookup tools of src/litweave/tools, with the servers that they ask as arguments.
pub mod Http
pub mod S2
pub mod Arxiv
pub mod Lookups
