-- ===== src/Llm.antt =====
-- src/litweave/llm: calls of a language model, and the limits on them.
pub mod Model
pub mod Structured
pub mod Providers
pub mod Router
pub mod RateLimit
