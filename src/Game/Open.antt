-- ===== src/Game/Open.antt =====
-- What the handlers keep of the open rooms.
pub mod Seats
pub mod Keeps
pub mod Sending
pub mod Rooms
pub mod Matches
pub mod Playing
pub mod Items
pub mod Clans
pub mod Founding
pub mod Social
pub mod Login
pub mod Table
pub mod Served
