-- ===== src/Start/Agreement.antt =====
-- The parent and the init process agree: the one succeeds just where the other does.
pub mod Answers
pub mod Handlers
pub mod Replies
pub mod Joint
