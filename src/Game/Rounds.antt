-- ===== src/Game/Rounds.antt =====
-- game_round.go, and the handlers of game_session.go that follow a match once it has started.
use fear_online_server.Game.Ids.{
  rmi_answer_begin_round_fail, rmi_answer_begin_round_ok, rmi_answer_check_respawn_ok,
  rmi_answer_death_ok, rmi_answer_dedi_user_ping_ok, rmi_answer_hit_count_ok,
  rmi_answer_load_complete_ok, rmi_answer_load_percent_ok, rmi_answer_respawn_instant_ok,
  rmi_answer_respawn_ok, rmi_answer_time_out_ok, rmi_answer_time_start_ok, rmi_notify_death,
  rmi_notify_game_end, rmi_notify_load_complete, rmi_notify_load_percent, rmi_notify_respawn,
  rmi_notify_round_begin, rmi_notify_round_end, rmi_notify_user_load_complete,
  rmi_notify_user_result_list,
}
use fear_online_server.Prelude.{
  ℕ, ◌+◌, ◌%◌, ◌^◌, Bool, true, false, ltb, if◌then◌else◌, List, [], ◌∷◌, length, Option, none,
  some,
}
use fear_online_server.Rooms.Room.{
  Room, RoomUser, next_round, finish_round, record_death, winning_team,
}
use fear_online_server.Rooms.Create.{byte_at}
use fear_online_server.Rooms.Payloads.{user_result_list, notify_death_row}
use fear_online_server.Match.{MatchSessions, leave_match, mark_loaded, seat_index}
use fear_online_server.Game.Seating.{change_room}
use fear_online_server.Game.Broadcast.{tell_match}
use fear_online_server.Game.{
  World, Act, pure, ◌>>=◌, ◌>>◌, modify, send, room_at, room_of_session, user_of_session,
  change_places, unless_none,
}

abbrev death_report_bytes : ℕ
death_report_bytes = 10

-- What ends a round or the match, once the users' results are out.
abbrev round_messages : List RoomUser → ℕ × Bool × Room → List (ℕ × List ℕ)
round_messages users (played, true, room) =
    (rmi_notify_round_end, []) ∷ (rmi_notify_game_end, winning_team users ∷ []) ∷ []
round_messages users (played, false, room) =
    (rmi_notify_round_end, []) ∷ (rmi_notify_round_begin, (played + 1) % 2 ^ 8 ∷ []) ∷ []

abbrev pub the_room : ℕ × Bool × Room → Room
the_room (played, last, room) = room

module _ {S : Type 0} where
  abbrev pub tell_all : ℕ → List (ℕ × List ℕ) → Act S (Unit {0})
  tell_all h [] = pure tt
  tell_all h (m ∷ msgs) = tell_match h m.0 m.1 >> tell_all h msgs

  -- seatOf.
  abbrev pub seat_in : ℕ → Option ℕ → Act S ℕ
  seat_in x none = pure 1
  seat_in x (some h) = do
    user ← user_of_session x
    room ← room_at h
    pure (seat_index room.users user)

  unfoldable pub seat_of : ℕ → Act S ℕ
  unfolding seat_index
  seat_of x = do found ← room_of_session x; seat_in x found

  unfoldable pub dedi_user_ping : ℕ → List ℕ → Act S (Unit {0})
  dedi_user_ping x body = send x rmi_answer_dedi_user_ping_ok []

  unfoldable pub hit_count : ℕ → List ℕ → Act S (Unit {0})
  hit_count x body = send x rmi_answer_hit_count_ok []

  unfoldable pub check_respawn : ℕ → List ℕ → Act S (Unit {0})
  unfolding seat_of
  check_respawn x body = do seat ← seat_of x; send x rmi_answer_check_respawn_ok (seat ∷ [])

  unfoldable pub check_respawn_instant : ℕ → List ℕ → Act S (Unit {0})
  unfolding seat_of
  check_respawn_instant x body = do
    seat ← seat_of x
    send x rmi_answer_respawn_instant_ok (seat ∷ [])

  abbrev pub respawn_in : ℕ → ℕ → Act S (Unit {0})
  respawn_in x h = do
    seat ← seat_of x
    send x rmi_answer_respawn_ok (seat ∷ [])
    tell_match h rmi_notify_respawn (seat ∷ [])

  unfoldable pub respawn : ℕ → List ℕ → Act S (Unit {0})
  unfolding seat_of tell_match
  respawn x body = do found ← room_of_session x; unless_none found (pure tt) (respawn_in x)

  unfoldable pub death_in : ℕ → List ℕ → ℕ → Act S (Unit {0})
  unfolding change_room record_death tell_match notify_death_row
  death_in x body h = do
    change_places
        (change_room h (λ r. record_death r (byte_at 0 body) (byte_at 1 body) (byte_at 2 body)))
    send x rmi_answer_death_ok []
    tell_match h rmi_notify_death (notify_death_row body)

  unfoldable pub death : ℕ → List ℕ → Act S (Unit {0})
  unfolding death_in
  death x body = do
    found ← room_of_session x
    unless_none found (pure tt) (λ h.
        if ltb (length body) death_report_bytes
        then send x rmi_answer_death_ok []
        else death_in x body h)

  unfoldable pub time_out_in : ℕ → ℕ → Act S (Unit {0})
  unfolding tell_match user_result_list change_room finish_round
  time_out_in x h = do
    send x rmi_answer_time_out_ok []
    before ← room_at h
    tell_match h rmi_notify_user_result_list (user_result_list before.users)
    room ← room_at h
    change_places (change_room h (λ r. the_room (finish_round r)))
    tell_all h (round_messages before.users (finish_round room))

  unfoldable pub time_out : ℕ → List ℕ → Act S (Unit {0})
  unfolding time_out_in
  time_out x body = do found ← room_of_session x; unless_none found (pure tt) (time_out_in x)

  unfoldable pub connect_server : ℕ → List ℕ → Act S (Unit {0})
  connect_server x body = pure tt

  abbrev pub load_percent_in : ℕ → List ℕ → ℕ → Act S (Unit {0})
  load_percent_in x body h = do
    send x rmi_answer_load_percent_ok []
    user ← user_of_session x
    room ← room_at h
    tell_match h rmi_notify_load_percent (seat_index room.users user ∷ byte_at 0 body ∷ [])

  unfoldable pub load_percent : ℕ → List ℕ → Act S (Unit {0})
  unfolding seat_index tell_match
  load_percent x body = do
    found ← room_of_session x
    unless_none found (pure tt)
        (λ h. if ltb (length body) 1 then pure tt else load_percent_in x body h)

  abbrev pub marked : World S → Bool × MatchSessions → Option Bool × World S
  marked w (complete, matches) = (some complete, record w { matches = matches })

  abbrev pub mark_arrival : ℕ → (number : ℕ) → Act S Bool
  mark_arrival x number w = marked w (mark_loaded w.matches number x)

  unfoldable pub load_complete_in : ℕ → ℕ → Act S (Unit {0})
  unfolding seat_index tell_match mark_loaded
  load_complete_in x h = do
    send x rmi_answer_load_complete_ok []
    user ← user_of_session x
    room ← room_at h
    tell_match h rmi_notify_user_load_complete (seat_index room.users user ∷ [])
    complete ← mark_arrival x room.number
    if complete then tell_match h rmi_notify_load_complete [] else pure tt

  unfoldable pub load_complete : ℕ → List ℕ → Act S (Unit {0})
  unfolding load_complete_in
  load_complete x body = do
    found ← room_of_session x
    unless_none found (pure tt) (load_complete_in x)

  unfoldable pub leave_match_in : ℕ → ℕ → Act S (Unit {0})
  unfolding leave_match
  leave_match_in x h = do
    room ← room_at h
    modify (λ w. record w { matches = leave_match w.matches room.number x })

  unfoldable pub match_leave : ℕ → List ℕ → Act S (Unit {0})
  unfolding leave_match_in
  match_leave x body = do found ← room_of_session x; unless_none found (pure tt) (leave_match_in x)

  unfoldable pub time_start : ℕ → List ℕ → Act S (Unit {0})
  time_start x body = send x rmi_answer_time_start_ok []

  abbrev begin_round_in : ℕ → ℕ → Act S (Unit {0})
  begin_round_in x h = do
    send x rmi_answer_begin_round_ok []
    room ← room_at h
    change_places (change_room h (λ r. (next_round r).1))
    tell_match h rmi_notify_round_begin ((next_round room).0 ∷ [])

  unfoldable pub begin_round : ℕ → List ℕ → Act S (Unit {0})
  unfolding change_room next_round tell_match
  begin_round x body = do
    found ← room_of_session x
    unless_none found (send x rmi_answer_begin_round_fail []) (begin_round_in x)
