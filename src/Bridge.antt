-- ===== src/Bridge.antt =====
-- internal/proxy: the translation between the chat completions that clients speak and the APIs of Codex
-- (Responses) and Anthropic (Messages), for requests and for streams. Bodies are decoded JSON.

pub mod Merge
pub mod Stream
pub mod Completion
pub mod Codex
pub mod Anthropic
pub mod Content
pub mod Messages
pub mod Tools
pub mod Images
