-- ===== src/Chat.antt =====
-- server/src/chat: the accumulation of a streamed reply and the store of conversations.
pub mod Sse
pub mod Store
mod Tests
