-- ===== src/Game/Runs.antt =====
-- A server with one room, of a user who leaves it.
use fear_online_server.Game.Ids.{rmi_request_room_leave}
use fear_online_server.Prelude.{
  ℕ, ◌≡◌, refl, inr, arith, String, true, false, List, [], ◌∷◌, ◌++◌, length, none, some, replicate,
}
use fear_online_server.Prelude.NatMap.{value_at}
use fear_online_server.Models.Clan.{no_clan}
use fear_online_server.Models.Player.{Player, no_player}
use fear_online_server.Catalog.Load.{empty_catalog}
use fear_online_server.Repositories.Exec.{ok}
use fear_online_server.Repositories.Memory.{Store, memory_players, memory_clans}
use fear_online_server.Wire.Cipher.{BlockCipher}
use fear_online_server.Wire.Rmi.{encode_plain}
use fear_online_server.Rooms.Room.{Room, RoomUser, room_member, room_is_full}
use fear_online_server.Rooms.Registry.{find_room}
use fear_online_server.Identity.{session_room, resolve_player, session_room_user}
use fear_online_server.Match.{new_match_tickets, new_match_sessions}
use fear_online_server.Server.{Config, Session, new_session, wrote}
use fear_online_server.Wire.Bytes.{read_uint16}
use fear_online_server.Wire.Varint.{decode_var_int}
use fear_online_server.Wire.Text.{read_proud_string, utf16_decode}
use fear_online_server.Game.{World, Env}
use fear_online_server.Game.Rooms.{release_session, join_room}
use fear_online_server.Game.Login.{create_credential, check_credential, guid_of}
use fear_online_server.Game.Served.{Event, accepts, receives, drops, happen_all}
use fear_online_server.Game.Open.Seats.{IsOpen}
use fear_online_server.Game.Open.Served.{happen_all-IsOpen}
use fear_online_server.Game.Leaving.{release_session-leaves}
use fear_online_server.Game.Refusals.{join_room-refused}
use fear_online_server.Game.Launcher.{check-create}

abbrev idle : BlockCipher
idle = record { accepts = λ key. true; encrypt = λ key b. b; decrypt = λ key b. b }

abbrev config : Config
config = record { public_der = 1 ∷ []; host = []; port = 7000; cipher = idle; oaep = λ b. some b }

-- A reading of runes that knows one text.
abbrev text : List ℕ → String
text [] = ""
text (b ∷ rest) = "a"

abbrev env : Env Store
env = record {
  players = memory_players;
  clans = memory_clans;
  search_by_name = λ name limit s. (ok [], s);
  catalog = empty_catalog;
  starting_point = 0;
  starting_cash = 0;
  channels = [];
  game_host = "";
  game_port = 7001;
  cipher = idle;
  text = text;
  runes = λ s. [];
  trim_space = λ s. s;
  cut = λ n s. s;
  hex = text;
  parse_uint = λ s. none;
  fnv = λ s. 0;
  crc32 = λ s. 0;
  to_lower = λ s. s;
  date = λ at. (2024, 1, 1);
  clock = λ n. n;
  address = λ x. some "1";
}

abbrev ada : Player
ada = record no_player { steam_id = "7"; name = "ada" }

abbrev seat : RoomUser
seat = record {
  id = 1;
  name = "ada";
  level = 1;
  team = 1;
  wire_state = 0;
  steam_id = "7";
  clan_name = "";
  clan = no_clan;
  score = record { kills = 0; deaths = 0; assists = 0; points = 0 };
}

-- A room with one seat.
abbrev cell : Room
cell = record {
  number = 5;
  title = "a";
  password = "";
  map_index = 4;
  map_name = "";
  host = "";
  max_users = 1;
  display_mode_index = 0;
  objective_limit = 0;
  round_limit = 2;
  room_type = 0;
  public = true;
  state = 0;
  team_balance = false;
  instruction = false;
  death_chat = false;
  perk_use = false;
  third_view_use = false;
  leader_id = 1;
  users = seat ∷ [];
  ready = false;
  round = 0;
}

abbrev client : Session
client = record (new_session (wrote 99 ∷ wrote 99 ∷ [])) { connect_guid = replicate 16 7 }

abbrev world : World Store
world = record {
  places = record {
    states =
        (3, record { player = ada; room = some 0; room_user = 1; channel = 0 })
        ∷ (4, record { player = ada; room = none; room_user = 0; channel = 0 })
        ∷ [];
    heap = λ h. cell;
    fresh = 1;
    rooms = record { rooms = (5, 0) ∷ []; last_room = 5 };
  };
  connections = (3, client) ∷ (4, client) ∷ [];
  registry = record {
    by_steam_id = ("7", 3 ∷ 4 ∷ []) ∷ [];
    by_session_id = (3, "7") ∷ (4, "7") ∷ [];
  };
  tickets = new_match_tickets;
  matches = new_match_sessions;
  credentials = [];
  ticks = 0;
  store = record { players = ("7", ada) ∷ []; clans = [] };
}

only_room : (n h : ℕ) → find_room world.places.rooms n ≡ some h → (5 ≡ n) × (0 ≡ h)
unfolding find_room
only_room n h e = ground (arith, e)

world-IsOpen : IsOpen world.places
world-IsOpen n h e =
    let (number, handle) = only_room n h e in
    (omega (arith, handle), number, (omega arith, omega arith))

-- The user leaves the room by a message, another one connects, and both end.
abbrev story : List Event
story =
    accepts 6 []
    ∷ receives 3 (record {
      marker = 1;
      payload = encode_plain (record { id = rmi_request_room_leave; body = [] });
    })
    ∷ drops 6
    ∷ drops 3
    ∷ []

happen_all-IsOpen_example : IsOpen (happen_all config env story world).places
happen_all-IsOpen_example = happen_all-IsOpen config env story world world-IsOpen

release_session-leaves_example :
    let after = (release_session env 3 world).1.places in
    (session_room after.states 3 ≡ none)
    × (room_member (after.heap 0) (session_room_user world.places.states 3) ≡ none)
    × (length (after.heap 0).users ≡ 0 → find_room after.rooms (world.places.heap 0).number ≡ none)
unfolding session_room
release_session-leaves_example = release_session-leaves env 3 0 world refl (tt, tt)

-- The number 5 and an empty password.
abbrev asks : List ℕ
asks = 5 ∷ 0 ∷ 0 ∷ []

join_room-refused_example : (join_room env 4 asks world).1.places ≡ world.places
unfolding resolve_player find_room read_proud_string decode_var_int utf16_decode room_is_full
    read_uint16
join_room-refused_example = join_room-refused env 4 asks world ada [] 3 refl refl (inr refl)

check-create_example :
    let created = (create_credential env 3 [] world).1 in
    let checked =
      check_credential env 4 (guid_of (value_at 3 world.connections) ++ (9 ∷ [])) created in
    resolve_player checked.1.places.states 4 ≡ some ada
unfolding resolve_player
check-create_example = check-create env 3 4 [] (9 ∷ []) ada world refl refl
