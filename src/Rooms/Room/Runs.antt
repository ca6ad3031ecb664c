-- ===== src/Rooms/Room/Runs.antt =====
-- A room of four seats, from its first user to the end of its match.
use fear_online_server.Prelude.{ℕ, ◌≡◌, refl, arith, true, false, ◌==◌, [], ◌∷◌, ◌++◌}
use fear_online_server.Rooms.Room.{
  Room, RoomUser, highest_seat, add_user, remove_user, record_death, finish_round, first_team,
  next_team, winning_team,
}
use fear_online_server.Rooms.Room.Seats.{dies, leaves, ◌⟶*◌, here, next, IsSeated, steps-IsSeated}
use fear_online_server.Rooms.Room.Rounds.{
  play, finish_round-play, IsBalanced, next_team-IsBalanced, winning_team_lem,
}
use fear_online_server.Models.Clan.{no_clan}

abbrev user : ℕ → ℕ → RoomUser
user id team = record {
  id = id;
  name = "ada";
  level = 3;
  team = team;
  wire_state = 0;
  steam_id = "7";
  clan_name = "";
  clan = no_clan;
  score = record { kills = 0; deaths = 0; assists = 0; points = 0 };
}

abbrev hall : Room
hall = record {
  number = 1;
  title = "hall";
  password = "";
  map_index = 4;
  map_name = "";
  host = "";
  max_users = 4;
  display_mode_index = 0;
  objective_limit = 0;
  round_limit = 2;
  room_type = 0;
  public = true;
  state = 0;
  team_balance = false;
  instruction = false;
  death_chat = false;
  perk_use = false;
  third_view_use = false;
  leader_id = 1;
  users = user 1 1 ∷ user 2 2 ∷ [];
  ready = false;
  round = 0;
}

hall-IsSeated : IsSeated hall
hall-IsSeated = record {
  within = omega arith;
  distinct = (((λ e. absurd (omega (arith, e))), tt), (tt, tt));
}

-- Two users, of whom one kills the other and leaves.
abbrev shot : Room
shot = record_death hall 1 2 0

abbrev match : hall ⟶* (remove_user shot 1).2
match = next (next here (dies hall 1 2 0)) (leaves shot 1)

steps-IsSeated_example : IsSeated (remove_user shot 1).2
unfolding highest_seat record_death
steps-IsSeated_example = steps-IsSeated match ((tt, omega arith), omega arith) hall-IsSeated

finish_round-play_example :
    let (played, last, s) = finish_round (play 1 hall) in (played ≡ 2) × (last ≡ (2 == 2))
finish_round-play_example = finish_round-play 1 hall refl (omega arith) (omega arith)

next_team-IsBalanced_example : IsBalanced (hall.users ++ (user 3 1 ∷ []))
unfolding add_user next_team first_team highest_seat
next_team-IsBalanced_example =
    next_team-IsBalanced hall (record hall { users = hall.users ++ (user 3 1 ∷ []) }) (user 9 1)
      (user 3 1) (omega arith, omega arith) refl refl

winning_team_lem_example : winning_team hall.users ≡ 0
winning_team_lem_example = winning_team_lem hall.users (omega arith) (omega arith)
