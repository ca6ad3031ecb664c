-- ===== src/Game/Open/Playing.antt =====
-- The other handlers of game_round.go, and those of game_session.go and game_equip.go, keep the open rooms.
use fear_online_server.Game.Ids.{rmi_answer_match_start_ok}
use fear_online_server.Prelude.{ℕ, Bool, List, [], ◌∷◌, Option, none, some}
use fear_online_server.Game.{World, Env}
use fear_online_server.Game.Open.Seats.{IsOpen}
use fear_online_server.Game.Open.Keeps.{
  Keeps, keeps, then-Keeps, send-Keeps, change_places-Keeps, room_at-Keeps, modify-Keeps,
}
use fear_online_server.Game.Open.Sending.{send_all-Keeps, tell_match-Keeps}
use fear_online_server.Prelude.{suc, ◌+◌, ◌%◌, ◌^◌, ◌++◌, refl}
use fear_online_server.Models.Player.{Player}
use fear_online_server.Rooms.Room.{Room, RoomUser}
use fear_online_server.Match.{
  MatchSessions, mark_loaded, leave_match, join_match, equip_row, build_user_equip,
}
use fear_online_server.Game.Rounds.{
  seat_in, seat_of, dedi_user_ping, hit_count, check_respawn, check_respawn_instant, respawn,
  connect_server, load_percent, marked, mark_arrival, load_complete_in, load_complete,
  leave_match_in, match_leave, time_start,
}
use fear_online_server.Game.Matches.{
  load_seat, equip_rows_of, match_snapshot, bind_match_session, enter_match, match_start,
}
use fear_online_server.Game.Equips.{
  show_equip, user_equip, tell_weapons, weapons_changed, change_weapon,
}

module _ {S : Type 0} (env : Env S) where
  seat_in-Keeps : (x : ℕ) (found : Option ℕ) → Keeps {S = S} (seat_in x found)
  seat_in-Keeps x none = search keeps
  seat_in-Keeps x (some h) = search keeps depth 9

  seat_of-Keeps : (x : ℕ) → Keeps (seat_of {S = S} x)
  unfolding seat_of
  seat_of-Keeps x = search (keeps, seat_in-Keeps) depth 9

  pub dedi_user_ping-Keeps : (x : ℕ) (body : List ℕ) → Keeps (dedi_user_ping {S = S} x body)
  unfolding dedi_user_ping
  dedi_user_ping-Keeps x body = search (keeps) depth 9

  pub hit_count-Keeps : (x : ℕ) (body : List ℕ) → Keeps (hit_count {S = S} x body)
  unfolding hit_count
  hit_count-Keeps x body = search (keeps) depth 9

  pub check_respawn-Keeps : (x : ℕ) (body : List ℕ) → Keeps (check_respawn {S = S} x body)
  unfolding check_respawn
  check_respawn-Keeps x body = search (keeps, seat_of-Keeps) depth 9

  pub check_respawn_instant-Keeps :
      (x : ℕ) (body : List ℕ) → Keeps (check_respawn_instant {S = S} x body)
  unfolding check_respawn_instant
  check_respawn_instant-Keeps x body = search (keeps, seat_of-Keeps) depth 9

  pub respawn-Keeps : (x : ℕ) (body : List ℕ) → Keeps (respawn {S = S} x body)
  unfolding respawn
  respawn-Keeps x body = search (keeps, seat_of-Keeps, tell_match-Keeps) depth 9

  pub connect_server-Keeps : (x : ℕ) (body : List ℕ) → Keeps (connect_server {S = S} x body)
  unfolding connect_server
  connect_server-Keeps x body = search (keeps) depth 9

  pub load_percent-Keeps : (x : ℕ) (body : List ℕ) → Keeps (load_percent {S = S} x body)
  unfolding load_percent
  load_percent-Keeps x body = search (keeps, tell_match-Keeps) depth 9

  marked-IsOpen :
      (w : World S) (r : Bool × MatchSessions) → IsOpen w.places → IsOpen (marked w r).1.places
  marked-IsOpen w (complete, matches) o = o

  mark_arrival-Keeps : (x number : ℕ) → Keeps {S = S} (mark_arrival x number)
  mark_arrival-Keeps x number = record {
    kept = λ w o. marked-IsOpen w (mark_loaded w.matches number x) o;
  }

  load_complete_in-Keeps : (x h : ℕ) → Keeps (load_complete_in {S = S} x h)
  unfolding load_complete_in
  load_complete_in-Keeps x h = search (keeps, tell_match-Keeps, mark_arrival-Keeps) depth 11

  pub load_complete-Keeps : (x : ℕ) (body : List ℕ) → Keeps (load_complete {S = S} x body)
  unfolding load_complete
  load_complete-Keeps x body = search (keeps, load_complete_in-Keeps) depth 9

  leave_match_in-Keeps : (x h : ℕ) → Keeps (leave_match_in {S = S} x h)
  unfolding leave_match_in
  leave_match_in-Keeps x h = then-Keeps (room_at-Keeps h) (λ room.
      modify-Keeps (λ (w : World S). record w { matches = leave_match w.matches room.number x })
        (λ w. refl))

  pub match_leave-Keeps : (x : ℕ) (body : List ℕ) → Keeps (match_leave {S = S} x body)
  unfolding match_leave
  match_leave-Keeps x body = search (keeps, leave_match_in-Keeps) depth 9

  pub time_start-Keeps : (x : ℕ) (body : List ℕ) → Keeps (time_start {S = S} x body)
  unfolding time_start
  time_start-Keeps x body = search (keeps) depth 9

  load_seat-Keeps : (seat : RoomUser) → Keeps (load_seat env seat)
  unfolding load_seat
  load_seat-Keeps seat = search (keeps) depth 9

  equip_rows_of-Keeps :
      (body : List ℕ) (index : ℕ) (users : List RoomUser)
      → Keeps (equip_rows_of env body index users)
  unfolding equip_rows_of
  equip_rows_of-Keeps body index [] = search keeps
  equip_rows_of-Keeps body index (user ∷ users) = then-Keeps (load_seat-Keeps user) (λ account.
      equip_rows_of-Keeps (body ++ equip_row (build_user_equip ((index + 1) % 2 ^ 8) account))
        (suc index) users)

  match_snapshot-Keeps :
      (room : Room) (users : List RoomUser) (viewer : ℕ)
      → Keeps (match_snapshot env room users viewer)
  unfolding match_snapshot
  match_snapshot-Keeps room users viewer = search (keeps, equip_rows_of-Keeps) depth 9

  enter_match-Keeps : (x h user : ℕ) (seat : RoomUser) → Keeps (enter_match env x h user seat)
  unfolding enter_match bind_match_session
  enter_match-Keeps x h user seat = then-Keeps (load_seat-Keeps seat) (λ account.
      then-Keeps (change_places-Keeps (bind_match_session env x account h user) (λ p o. o)) (λ u.
        then-Keeps (room_at-Keeps h) (λ room.
          then-Keeps
            (modify-Keeps
              (λ (w : World S). record w { matches = join_match w.matches room.number x })
              (λ w. refl))
            (λ v. then-Keeps (match_snapshot-Keeps room room.users user) (λ msgs.
              then-Keeps (send_all-Keeps x msgs)
                (λ y. send-Keeps x rmi_answer_match_start_ok []))))))

  pub match_start-Keeps : (x : ℕ) (body : List ℕ) → Keeps (match_start env x body)
  unfolding match_start
  match_start-Keeps x body = search (keeps, enter_match-Keeps) depth 11

  show_equip-Keeps : (x asked : ℕ) (seat : RoomUser) → Keeps (show_equip env x asked seat)
  unfolding show_equip
  show_equip-Keeps x asked seat = search (keeps) depth 9

  pub user_equip-Keeps : (x : ℕ) (body : List ℕ) → Keeps (user_equip env x body)
  unfolding user_equip
  user_equip-Keeps x body = search (keeps, show_equip-Keeps) depth 11

  tell_weapons-Keeps : (x : ℕ) (p : Player) (h : ℕ) → Keeps (tell_weapons env x p h)
  unfolding tell_weapons
  tell_weapons-Keeps x p h = search (keeps, seat_of-Keeps, tell_match-Keeps) depth 9

  weapons_changed-Keeps :
      (x : ℕ) (body : List ℕ) (p : Player) → Keeps (weapons_changed env x body p)
  unfolding weapons_changed
  weapons_changed-Keeps x body p = search (keeps, tell_weapons-Keeps) depth 9

  pub change_weapon-Keeps : (x : ℕ) (body : List ℕ) → Keeps (change_weapon env x body)
  unfolding change_weapon
  change_weapon-Keeps x body = search (keeps, weapons_changed-Keeps) depth 11
