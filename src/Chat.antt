-- ===== src/Chat.antt =====
-- chat/: the slash commands.
pub mod Commands
