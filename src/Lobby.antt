-- ===== src/Lobby.antt =====
-- server/internal/proudnet: the bodies of the messages of the lobby, which tell a client about accounts,
-- their items and their clans.
pub mod Rows
pub mod Members
pub mod Social
pub mod Clans
pub mod Game
mod Runs
