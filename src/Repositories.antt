-- ===== src/Repositories.antt =====
-- server/internal/repositories: what the services ask of the stores, and the in-memory stores.
pub mod Exec
pub mod Table
pub mod Interface
pub mod Memory
