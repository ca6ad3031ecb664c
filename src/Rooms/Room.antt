-- ===== src/Rooms/Room.antt =====
-- room.go and game_round.go: a room, its seats and its rounds. Each method holds the room's lock
-- throughout, so it is one step. A method that writes gives the room back beside its result.
pub mod Seats
pub mod Rounds
mod Runs
use fear_online_server.Prelude.{
  ℕ, zero, suc, ◌+◌, ◌*◌, ◌%◌, ◌^◌, String, Bool, true, false, not, ◌&&◌, ◌||◌, ltb, leb, ◌==◌,
  if◌then◌else◌, List, [], ◌∷◌, ◌++◌, length, Option, none, some, find_by, any_by, remove_by,
  update_by,
}
use fear_online_server.Models.Clan.{Clan}

abbrev pub wire_state_wait : ℕ
wire_state_wait = 0

abbrev pub wire_state_ready : ℕ
wire_state_ready = 2

pub record Score : Type 0 where
  pub kills : ℕ
  pub deaths : ℕ
  pub assists : ℕ
  pub points : ℕ

pub record RoomUser : Type 0 where
  pub id : ℕ
  pub name : String
  pub level : ℕ
  pub team : ℕ
  pub wire_state : ℕ
  pub steam_id : String
  pub clan_name : String
  pub clan : Clan
  pub score : Score

pub record Room : Type 0 where
  pub number : ℕ
  pub title : String
  pub password : String
  pub map_index : ℕ
  pub map_name : String
  pub host : String
  pub max_users : ℕ
  pub display_mode_index : ℕ
  pub objective_limit : ℕ
  pub round_limit : ℕ
  pub room_type : ℕ
  pub public : Bool
  pub state : ℕ
  pub team_balance : Bool
  pub instruction : Bool
  pub death_chat : Bool
  pub perk_use : Bool
  pub third_view_use : Bool
  pub leader_id : ℕ
  pub users : List RoomUser
  pub ready : Bool
  pub round : ℕ

abbrev pub round_or_one : Room → ℕ
round_or_one r = if r.round == 0 then 1 else r.round

unfoldable pub next_round : Room → ℕ × Room
next_round r = (round_or_one r, record r { round = round_or_one r })

unfoldable pub highest_seat : ℕ → List RoomUser → ℕ
highest_seat highest [] = highest
highest_seat highest (u ∷ us) = highest_seat (if ltb highest u.id then u.id else highest) us

unfoldable pub room_is_full : Room → Bool
room_is_full r = leb r.max_users (length r.users)

-- The seated user with the room, where there is a seat.
unfoldable pub add_user : Room → RoomUser → Option (RoomUser × Room)
unfolding highest_seat
add_user r user =
    let seated = record user { id = (highest_seat 0 r.users + 1) % 2 ^ 32 } in
    if leb r.max_users (length r.users)
    then none
    else some (seated, record r { users = r.users ++ (seated ∷ []) })

abbrev is_empty : List RoomUser → Bool
is_empty users = length users == 0

abbrev removed_user : Room → Option (RoomUser × List RoomUser) → Option RoomUser × Bool × Room
removed_user r none = (none, is_empty r.users, r)
removed_user r (some (u, rest)) = (some u, is_empty rest, record r { users = rest })

-- The user, if it was seated; whether the room is empty; and the room.
unfoldable pub remove_user : Room → ℕ → Option RoomUser × Bool × Room
remove_user r id = removed_user r (remove_by (λ u. u.id == id) r.users)

unfoldable pub all_ready : Room → Bool
all_ready r =
    not (any_by (λ u. not (u.id == r.leader_id) && not (u.wire_state == wire_state_ready)) r.users)

abbrev pub toggled : RoomUser → RoomUser
toggled u = record u {
  wire_state = if u.wire_state == wire_state_ready then wire_state_wait else wire_state_ready;
}

abbrev toggled_room : Room → ℕ → Room
toggled_room r id = record r { users = update_by (λ u. u.id == id) toggled r.users }

abbrev toggle_found : Room → ℕ → Option RoomUser → ℕ × Bool × Room
toggle_found r id none = (wire_state_wait, false, r)
toggle_found r id (some u) = (
  (toggled u).wire_state,
  true,
  record (toggled_room r id) { ready = all_ready (toggled_room r id) },
)

unfoldable pub toggle_ready : Room → ℕ → ℕ × Bool × Room
unfolding all_ready
toggle_ready r id = toggle_found r id (find_by (λ u. u.id == id) r.users)

unfoldable pub room_member : Room → ℕ → Option RoomUser
room_member r id = find_by (λ u. u.id == id) r.users

unfoldable pub first_team : List RoomUser → ℕ
first_team [] = 0
first_team (u ∷ us) = (if u.team == 1 then 1 else 0) + first_team us

unfoldable pub next_team : Room → ℕ
unfolding first_team
next_team r = if leb (first_team r.users * 2) (length r.users) then 1 else 2

-- What a death report writes to one seat; the counters are uint16.
unfoldable pub scored : (killer victim assist : ℕ) → RoomUser → RoomUser
scored killer victim assist u =
    if u.id == victim
    then record u { score = record u.score { deaths = (u.score.deaths + 1) % 2 ^ 16 } }
    else if u.id == killer && not (killer == victim)
    then record u { score = record u.score { kills = (u.score.kills + 1) % 2 ^ 16 } }
    else if u.id == assist && not (assist == 0)
    then record u { score = record u.score { assists = (u.score.assists + 1) % 2 ^ 16 } }
    else u

unfoldable pub score_all : (killer victim assist : ℕ) → List RoomUser → List RoomUser
unfolding scored
score_all killer victim assist [] = []
score_all killer victim assist (u ∷ us) =
    scored killer victim assist u ∷ score_all killer victim assist us

unfoldable pub record_death : Room → (killer victim assist : ℕ) → Room
unfolding score_all
record_death r killer victim assist = record r { users = score_all killer victim assist r.users }

-- The round that was played, whether it was the last, and the room.
unfoldable pub finish_round : Room → ℕ × Bool × Room
finish_round r =
    let played = round_or_one r in
    if not (r.round_limit == 0) && leb r.round_limit played
    then (played, true, record r { round = played })
    else (played, false, record r { round = (played + 1) % 2 ^ 8 })

-- `totals[team]`, which is a uint16.
unfoldable pub kills_of : ℕ → List RoomUser → ℕ → ℕ
kills_of team [] total = total
kills_of team (u ∷ us) total =
    kills_of team us (if u.team == team then (total + u.score.kills) % 2 ^ 16 else total)

unfoldable pub winning_team : List RoomUser → ℕ
unfolding kills_of
winning_team users =
    let first = kills_of 1 users 0 in
    let second = kills_of 2 users 0 in
    if ltb second first then 1 else if ltb first second then 2 else 0
