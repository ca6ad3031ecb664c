-- ===== src/Rooms/Payloads/Runs.antt =====
-- The teams of two users.
use fear_online_server.Prelude.{◌≡◌, arith, List, [], ◌∷◌, some}
use fear_online_server.Models.Player.{no_player}
use fear_online_server.Rooms.Room.{RoomUser}
use fear_online_server.Rooms.Create.{user_of}
use fear_online_server.Rooms.Payloads.{team_list}
use fear_online_server.Rooms.Payloads.Teams.{read_teams, read_teams-team_list}

abbrev users : List RoomUser
users = record (user_of no_player 1) { id = 1 } ∷ record (user_of no_player 2) { id = 70000 } ∷ []

read_teams-team_list_example : read_teams (team_list users) ≡ some ((1, 1) ∷ (70000, 2) ∷ [])
unfolding user_of
read_teams-team_list_example =
    read_teams-team_list users (omega arith, (omega arith, tt)) (omega arith)
