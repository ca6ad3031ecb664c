-- ===== src/Services.antt =====
-- server/internal/services: what the server does with accounts and clans, over any repositories.
pub mod Clans
pub mod Friends
pub mod Players
