-- ===== src/Lib.antt =====
-- A verification library for the FEAR Online server (Go, under server/).
--
-- The server speaks ProudNet over a TCP stream. Bytes become frames, frames become set-up messages or
-- RMI messages inside encrypted or plain envelopes, and the handlers of the messages call services,
-- which keep accounts and clans in repositories and read the game's tables from the catalog. Rooms and
-- connections live in registries in memory.
--
-- Which file models what:
-- - Wire: server/internal/proudnet. Varint: varint.go (encode_var_int, decode_var_int). Bytes:
--   payloads.go. Frame: frame.go (encode_frame, parse_frames); parse_frames answers the frames, what is
--   left of the stream, and the error, as the three results of ParseFrames. Text: string.go. Cipher:
--   crypto.go. Rmi: rmi.go. Handshake: handshake.go and connect.go. Read holds results and errors.
-- - Server: session.go and server.go of the same package. A connection is a list of what its reads give
--   and one of what its writes do; handle_reads is the loop of handleConnection, and a handler of a
--   message is any function on the session and a state of the handlers' own.
-- - Rooms: Room is room.go's Room with its users, rounds and scores and game_round.go's winningTeam.
--   Registry: room_registry.go. Sessions: session_registry.go. Rooms and sessions are handles there.
--   Create: parseCreate of room.go. Payloads: the bodies of the messages of a room.
-- - Lobby: the bodies of other messages. Rows: items.go and profile.go. Members: clan_member.go. Social:
--   friend.go, the chats, clan_mark.go and the open maps of lobby.go. Clans: clan.go and clan_request.go.
--   Game: game_session.go, game_start.go.
-- - Catalog: server/internal/catalog/catalog.go. Rows: the readers of a table's rows. Load: Load, over the
--   rows of each file.
-- - Identity: identity.go, Presence and InRoom of session_registry.go, and server/internal/auth/auth.go:
--   what a session knows of its account, and the tokens of the launcher's log-in.
-- - Match: game_session.go and game_equip.go: the tickets and the sessions of a match, and what a user
--   carries into it.
-- - Game: the handlers of the messages, on one state of the whole server (World) whose Places are the
--   sessions' data, the rooms behind their handles and the registry of rooms. Env holds what the server
--   is started with; Act is what a handler does, from its first line to its last or to its first error.
--   Seating, Broadcast: what the handlers write and whom they tell. Start, Rooms, Rounds, Matches,
--   Equips: game_start.go and solo_start_hack.go, room.go with lobby.go, game_round.go, game_session.go,
--   game_equip.go. Items, Clans, Friends, Chat: items.go, clan_actions.go, friend.go, chat.go, with
--   Clans/Founding for clan.go and Clans/Marks for clan_mark.go and clan_chat.go. Login: auth.go,
--   channel.go, actions_ack.go. Profile: profile.go. Ids: the numbers of the messages. Table: the
--   registration in cmd/fear-online-server/main.go. Served: the loop of server.go over all connections.
--   Open, Leaving, Refusals, Launcher: proofs only.
-- - Models: server/internal/models. Item, Loadout, Attachments: inventory.go. Records: records.go.
--   Player: player.go, with Player/Materials for ConsumeMaterials and SpendUnit of inventory.go and
--   Player/Social for friend.go. Clan: clan.go. A method with a pointer receiver answers the changed
--   record beside its result.
-- - Repositories: server/internal/repositories. Interface: the two interfaces, as records of operations
--   over a state. Memory: the in-memory stores, one state for both. Table: a Go map with string keys.
--   Exec: calls that may fail; what was written before a failure stays written.
-- - Services: server/internal/services. Clans: clan_service.go and clan_membership.go, over any
--   repositories; Clans/Request lists the requests that change a clan, and AllClans of Clans/Stored says
--   what a good store of clans is. Friends: friend_service.go, with strings.TrimSpace as a parameter.
--   Players: player_service.go and consumables.go; Grants holds what enters an inventory, Shop the
--   requests that change it, Login the log-in. Players/Failure lists the requests of an account.
--   Players/Needed adds up what a recipe needs, and Players/Granted says how an item enters an inventory.
-- - Prelude: tests and lists over the native numbers, maps with number keys, bit lemmas, integers, and
--   well-founded recursion.
--
-- Numbers are natural numbers, with the wrap-around of a w-bit integer written out where the source can
-- reach it; int32 and int values are integers, but the int32 fields of a clan hold their bits. A time is
-- its nanoseconds since Go's zero time, and the clock is an argument of the functions that read it, one
-- for each reading. AES, RSA, strings.TrimSpace, strings.Split, the number parsers, FNV hashes, hex, the
-- conversion between strings and runes and the CSV reader belong to Go's libraries: they are parameters
-- (BlockCipher, Oaep, Conversions and the arguments of the functions that use them), and what is asked of
-- them is a hypothesis of each theorem that needs it. UTF-16 is written out in Wire/Text.
--
-- Loops: ParseFrames recurses on fuel, the length of its input, and it is proved that this is enough;
-- EncodeVarInt recurses on accessibility of the value that is left; RoomRegistry.Open recurses on 65535
-- rounds, after which its number comes around, so that an Open without a result is one that never ends,
-- and a result is proved to be there while a number is free; DecodeVarInt, NextSerial and the list loops
-- recurse on their rounds or their list.
--
-- A store's Find answers a copy, as the Mongo stores do; the in-memory stores of the source share slices
-- with the caller. Map iteration has the order of the association list. A method that holds its lock from
-- its first to its last line is one step.
--
-- The handlers run one after the other, each to its end: what may happen between two steps of two handlers
-- that run at once is left out, and so are timeouts. A handler that reads the clock reads it just before
-- the service call that uses it. An Open that never ends is a request that fails. Which bytes a
-- connection takes is part of its session, and the address of a connection is a parameter.
--
-- Not modelled: the Mongo stores, HTTP endpoints, configuration, logging (input and output), key
-- generation, and Listen with the accept loop; a connection that is accepted is an event of Game/Served.
mod Prelude
pub mod Wire
pub mod Models
pub mod Repositories
pub mod Catalog
pub mod Rooms
pub mod Server
pub mod Lobby
pub mod Identity
pub mod Match
pub mod Game
pub mod Services
