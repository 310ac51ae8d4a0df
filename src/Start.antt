-- ===== src/Start.antt =====
-- The start of a container: the parent and the init process, and how they talk.
pub mod Sync
pub mod Calls
pub mod Parent
pub mod Child
pub mod Agreement
pub mod Init
pub mod Order
pub mod Panics
pub mod Ending
mod Scenarios
