-- ===== src/Rooms/Registry/Runs.antt =====
-- A registry whose numbers come around.
use fear_online_server.Prelude.{ℕ, ◌^◌, ◌<◌, ◌≡◌, arith, ◌==◌, if◌then◌else◌, [], ◌∷◌, none, some}
use fear_online_server.Rooms.Registry.{RoomRegistry, open_room, find_room}
use fear_online_server.Rooms.Registry.Open.{open_room_free}

abbrev busy : RoomRegistry
busy = record { rooms = (1, 10) ∷ (65535, 11) ∷ []; last_room = 65535 }

open_room_free_example :
    (n : ℕ) × (s : RoomRegistry) × (open_room busy 12 ≡ some (n, s))
    × (0 < n)
    × (n < 2 ^ 16)
    × (find_room busy n ≡ none)
    × ((m : ℕ) → find_room s m ≡ (if n == m then some 12 else find_room busy m))
open_room_free_example = open_room_free busy 12 (omega arith) (omega arith)
