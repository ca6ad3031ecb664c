-- ===== src/Rooms/Create.antt =====
-- room.go's parseCreate: the room that a request opens, with its creator in the first seat. A string of the
-- wire is its runes, and `text` is `string(runes)`.
pub mod Seated
mod Runs
use fear_online_server.Prelude.{
  ℕ, String, false, not, ltb, ◌==◌, if◌then◌else◌, List, [], ◌∷◌, length, drop, Option, none, some,
}
use fear_online_server.Prelude.NatMap.{value_at}
use fear_online_server.Models.Clan.{no_clan}
use fear_online_server.Models.Player.{Player}
use fear_online_server.Catalog.{Catalog, MapInfo}
use fear_online_server.Wire.Bytes.{read_uint16}
use fear_online_server.Wire.Read.{Read, ReadError, read, malformed}
use fear_online_server.Wire.Text.{read_proud_string}
use fear_online_server.Rooms.Room.{Room, RoomUser, Score, add_user}

pub data CreateError : Type 0 where
  bad_title : ReadError → CreateError
  bad_password : ReadError → CreateError
  too_short : ℕ → CreateError
  no_seat : CreateError

pub data Creation : Type 0 where
  created : Room → Creation
  failed : CreateError → Creation

-- An index below the length that the caller has checked.
unfoldable pub byte_at : ℕ → List ℕ → ℕ
byte_at n bytes = elim (drop n bytes) [ [] ↦ 0 | b ∷ rest ↦ b ]

-- profile.go.
unfoldable pub level_byte : Player → ℕ
level_byte p = if p.level == 0 then 1 else if ltb 0xFF p.level then 0xFF else p.level

abbrev map_name_of : Option MapInfo → String
map_name_of none = ""
map_name_of (some info) = info.map_name

-- The user that a player enters a room as, on a team.
unfoldable pub user_of : Player → ℕ → RoomUser
unfolding level_byte
user_of p team = record {
  id = 0;
  name = p.name;
  level = level_byte p;
  team = team;
  wire_state = 0;
  steam_id = p.steam_id;
  clan_name = p.clan_name;
  clan = no_clan;
  score = record { kills = 0; deaths = 0; assists = 0; points = 0 };
}

-- The room that the fixed block describes, before anyone is in it.
unfoldable pub described : Catalog → (title password : String) → List ℕ → Room
unfolding byte_at
described catalog title password fixed = record {
  number = 0;
  title = title;
  password = password;
  map_index = read_uint16 fixed;
  map_name = map_name_of (value_at (read_uint16 fixed) catalog.maps);
  host = "";
  max_users = if byte_at 2 fixed == 0 then 16 else byte_at 2 fixed;
  display_mode_index = byte_at 3 fixed;
  objective_limit = byte_at 4 fixed;
  round_limit = byte_at 5 fixed;
  room_type = 0;
  public = not (byte_at 8 fixed == 0);
  state = byte_at 9 fixed;
  team_balance = not (byte_at 10 fixed == 0);
  instruction = not (byte_at 11 fixed == 0);
  death_chat = not (byte_at 12 fixed == 0);
  perk_use = false;
  third_view_use = false;
  leader_id = 0;
  users = [];
  ready = false;
  round = 0;
}

abbrev with_leader : Option (RoomUser × Room) → Creation
with_leader none = failed no_seat
with_leader (some (leader, room)) = created (record room { leader_id = leader.id })

unfoldable pub seat_creator : Room → RoomUser → Creation
unfolding add_user
seat_creator room user = with_leader (add_user room user)

module _ (text : List ℕ → String) (catalog : Catalog) where
  unfoldable pub create_fixed : (title password : List ℕ) → List ℕ → Player → Creation
  unfolding seat_creator described user_of
  create_fixed title password fixed p =
      if ltb (length fixed) 13
      then failed (too_short (length fixed))
      else seat_creator (described catalog (text title) (text password) fixed) (user_of p 1)

  abbrev pub with_password : Read (List ℕ) → List ℕ → List ℕ → Player → Creation
  with_password (malformed e) title body p = failed (bad_password e)
  with_password (read password next) title body p = create_fixed title password (drop next body) p

  abbrev pub with_title : Read (List ℕ) → List ℕ → Player → Creation
  with_title (malformed e) body p = failed (bad_title e)
  with_title (read title next) body p = with_password (read_proud_string body next) title body p

  unfoldable pub parse_create : List ℕ → Player → Creation
  unfolding read_proud_string create_fixed
  parse_create body p = with_title (read_proud_string body 0) body p
