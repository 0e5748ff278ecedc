-- ===== src/Synthesis.antt =====
-- src/litweave/synthesis/synthesizer.py: prompt budget, reranking, grounding and the node.
pub mod Grounding
pub mod Tokens
pub mod Rerank
pub mod Node
