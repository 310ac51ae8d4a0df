-- ===== src/User.antt =====
-- The user database of a container: libcontainer/user/user.go.
pub mod Parse
pub mod Exec
pub mod Groups
mod Scenarios
