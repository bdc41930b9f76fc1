-- ===== src/Meta.antt =====
-- pkg/meta: the replicated metadata, its privileges, and the operations on it.
pub mod Privilege
pub mod Types
pub mod Apply
pub mod Snapshot
pub mod Leader
pub mod Handler
pub mod Client
pub mod Auth
pub mod Node
pub mod Protocol
pub mod Startup
pub mod Informer
mod Tests
