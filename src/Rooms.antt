-- ===== src/Rooms.antt =====
-- server/internal/proudnet: rooms, their registry, the sessions' registry and the rules of a match.
pub mod Room
pub mod Registry
pub mod Sessions
pub mod Create
pub mod Payloads
