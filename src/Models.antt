-- ===== src/Models.antt =====
-- server/internal/models: what the server stores of an account and of a clan.
pub mod Item
pub mod Loadout
pub mod Attachments
pub mod Records
pub mod Clan
pub mod Player
mod Runs
