-- ===== src/Container.antt =====
-- The life of a container: libcontainer/state_linux.go and the parts of
-- libcontainer/container_linux.go that change or read its state.
pub mod Session
pub mod Status
pub mod Transition
pub mod Destroy
pub mod Lifecycle
mod Scenarios
