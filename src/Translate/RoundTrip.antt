-- ===== src/Translate/RoundTrip.antt =====
-- Bodies that the builder of a protocol prints and the parser of that protocol reads.
pub mod Anthropic
pub mod Openai
pub mod Codex
pub mod Fields
pub mod Request
