-- ===== src/Rooms/Create/Runs.antt =====
-- A request that opens a room.
use fear_online_server.Prelude.{ℕ, refl, List, [], ◌∷◌, ◌++◌, String, replicate}
use fear_online_server.Models.Player.{Player, no_player}
use fear_online_server.Catalog.Load.{empty_catalog}
use fear_online_server.Wire.Text.{read_proud_string, utf16_decode}
use fear_online_server.Wire.Varint.{decode_var_int}
use fear_online_server.Rooms.Room.{Room}
use fear_online_server.Rooms.Create.{parse_create, described, user_of, create_fixed, seat_creator}
use fear_online_server.Rooms.Create.Seated.{IsFresh, parse_create-IsFresh}

-- A reading of runes that knows one title.
abbrev text : List ℕ → String
text [] = ""
text (b ∷ rest) = "a"

abbrev ada : Player
ada = record no_player { steam_id = "7"; level = 300 }

-- The title "a", no password, map 4, and no limit of users.
abbrev body : List ℕ
body = (1 ∷ b'a' ∷ 0 ∷ 0 ∷ []) ++ ((4 ∷ replicate 11 0) ++ (1 ∷ []))

abbrev opened_room : Room
opened_room = record (described empty_catalog "a" "" ((4 ∷ replicate 11 0) ++ (1 ∷ []))) {
  users = record (user_of ada 1) { id = 1 } ∷ [];
  leader_id = 1;
}

parse_create-IsFresh_example : IsFresh ada opened_room
unfolding parse_create read_proud_string decode_var_int utf16_decode create_fixed seat_creator
parse_create-IsFresh_example = parse_create-IsFresh text empty_catalog body ada opened_room refl
