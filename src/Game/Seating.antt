-- ===== src/Game/Seating.antt =====
-- What room.go's handlers and releaseSession write to sessions, rooms and the registry of rooms.
use fear_online_server.Prelude.{
  ℕ, suc, Bool, ◌==◌, if◌then◌else◌, List, [], ◌∷◌, Option, none, some,
}
use fear_online_server.Rooms.Room.{Room, RoomUser, remove_user}
use fear_online_server.Rooms.Registry.{RoomRegistry, open_room, close_room}
use fear_online_server.Identity.{set_session_room, set_session_room_user}
use fear_online_server.Game.{Places}

-- The heap with one room changed.
abbrev pub write : (ℕ → Room) → ℕ → Room → ℕ → Room
write heap h room k = if h == k then room else heap k

-- `room.Users[0].ID`, of a room that has a user.
abbrev first_id : List RoomUser → ℕ
first_id [] = 0
first_id (u ∷ users) = u.id

unfoldable pub change_room : ℕ → (Room → Room) → Places → Places
change_room h f p = record p { heap = write p.heap h (f (p.heap h)) }

-- `setSessionRoom` and `setSessionRoomUser`.
unfoldable pub stand : ℕ → (room user : ℕ) → Places → Places
unfolding set_session_room set_session_room_user
stand x h user p = record p {
  states = set_session_room_user (set_session_room p.states x (some h)) x user;
}

abbrev pub opened_place : ℕ → Room → Option (ℕ × RoomRegistry) → Places → Option Places
opened_place x room none p = none
opened_place x room (some (n, rooms)) p = some (
    stand x p.fresh (first_id room.users) (record p {
      heap = write p.heap p.fresh (record room { number = n });
      fresh = suc p.fresh;
      rooms = rooms;
    }))

-- A new room on the next handle, where the session stands; `none` is an Open that never ends.
unfoldable pub create_place : ℕ → Room → Places → Option Places
unfolding stand open_room
create_place x room p = opened_place x room (open_room p.rooms p.fresh) p

-- The user that AddUser has seated, in the room that it has left.
unfoldable pub sit : ℕ → ℕ → RoomUser × Room → Places → Places
unfolding stand
sit x h (user, room) p = stand x h user.id (record p { heap = write p.heap h room })

abbrev pub left_places : ℕ → Places → Option RoomUser × Bool × Room → Bool × Places
left_places h p (removed, empty, room) = (
  empty,
  record p {
    heap = write p.heap h room;
    rooms = if empty then close_room p.rooms room.number else p.rooms;
  },
)

-- RemoveUser, and Close where the room is empty then: whether it is, and the places.
unfoldable pub vacate : ℕ → (user : ℕ) → Places → Bool × Places
unfolding remove_user close_room
vacate h user p = left_places h p (remove_user (p.heap h) user)

unfoldable pub stand_nowhere : ℕ → Places → Places
unfolding set_session_room
stand_nowhere x p = record p { states = set_session_room p.states x none }
