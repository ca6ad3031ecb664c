-- ===== src/Rooms/Registry.antt =====
-- server/internal/proudnet/room_registry.go: the numbers of the open rooms. A `*Room` is a handle. Each
-- method holds the lock throughout. The number that Open gives is also what it writes into the room.
pub mod Open
mod Runs
use fear_online_server.Prelude.{
  ℕ, zero, suc, ◌+◌, ◌-◌, ◌%◌, ◌^◌, Bool, true, false, leb, ◌==◌, if◌then◌else◌, List, [], ◌∷◌, map,
  Option, none, some,
}
use fear_online_server.Prelude.NatMap.{value_at, put, remove_key}

pub record RoomRegistry : Type 0 where
  pub rooms : List (ℕ × ℕ)
  pub last_room : ℕ

abbrev pub new_room_registry : RoomRegistry
new_room_registry = record { rooms = []; last_room = 0 }

-- `r.lastRoom++`, which is a uint16, and skips 0.
unfoldable pub next_number : ℕ → ℕ
next_number last = let n = (last + 1) % 2 ^ 16 in if n == 0 then 1 else n

unfoldable pub taken : ℕ → List (ℕ × ℕ) → Bool
taken n rooms = elim (value_at n rooms) [ none ↦ false | some h ↦ true ]

-- The loop of Open, with the rounds that are left; `none` is a loop that has come around without a
-- free number, and never ends.
unfoldable pub open_loop : ℕ → List (ℕ × ℕ) → ℕ → Option ℕ
unfolding taken next_number
open_loop zero rooms last = none
open_loop (suc rounds) rooms last = elim (taken (next_number last) rooms) [
  | true ↦ open_loop rounds rooms (next_number last)
  | false ↦ some (next_number last)
]

abbrev pub opened : RoomRegistry → ℕ → Option ℕ → Option (ℕ × RoomRegistry)
opened r handle none = none
opened r handle (some n) = some (n, record { rooms = put n handle r.rooms; last_room = n })

-- The number and the registry.
unfoldable pub open_room : RoomRegistry → ℕ → Option (ℕ × RoomRegistry)
unfolding open_loop
open_room r handle = opened r handle (open_loop (2 ^ 16 - 1) r.rooms r.last_room)

unfoldable pub find_room : RoomRegistry → ℕ → Option ℕ
find_room r number = value_at number r.rooms

unfoldable pub close_room : RoomRegistry → ℕ → RoomRegistry
close_room r number = record r { rooms = remove_key number r.rooms }

-- sort.Slice by number, which the keys make an order without ties.
unfoldable pub insert_number : ℕ × ℕ → List (ℕ × ℕ) → List (ℕ × ℕ)
insert_number e [] = e ∷ []
insert_number e (x ∷ xs) = if leb e.0 x.0 then e ∷ x ∷ xs else x ∷ insert_number e xs

unfoldable pub sort_numbers : List (ℕ × ℕ) → List (ℕ × ℕ)
unfolding insert_number
sort_numbers [] = []
sort_numbers (e ∷ es) = insert_number e (sort_numbers es)

unfoldable pub list_rooms : RoomRegistry → List ℕ
unfolding sort_numbers
list_rooms r = map (λ e. e.1) (sort_numbers r.rooms)
