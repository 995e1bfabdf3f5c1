-- ===== src/Conversation.antt =====
-- Conversations of src/sqllens/conversation_store.py and the turns of tools/query_database.py.
pub mod Store
pub mod ToolUse
pub mod Turn
pub mod Queue
