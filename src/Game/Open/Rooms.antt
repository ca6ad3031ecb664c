-- ===== src/Game/Open/Rooms.antt =====
-- The handlers of room.go and lobby.go, and releaseSession, keep the open rooms.
use fear_online_server.Prelude.{
  ℕ, ◌<◌, ◌≡◌, refl, subst, sym, String, List, length, Option, none, some, arith,
}
use fear_online_server.Models.Player.{Player}
use fear_online_server.Wire.Read.{Read, read, malformed}
use fear_online_server.Rooms.Room.{Room, RoomUser, add_user, next_team}
use fear_online_server.Rooms.Sessions.{unbind}
use fear_online_server.Rooms.Create.{Creation, created, failed, parse_create, user_of}
use fear_online_server.Rooms.Create.Seated.{IsFresh, parse_create-IsFresh}
use fear_online_server.Game.{World, Places, Env, change_places}
use fear_online_server.Game.Seating.{create_place, sit, stand_nowhere}
use fear_online_server.Game.Rooms.{
  join_lobby, leave_lobby, lobby_list, room_list, clan_room_list, lobby_user_list, settle_room,
  settled, create_parsed, create_room, refuse_join, seated, take_seat, join_found, join_with,
  join_room, vacate_seat, leave_seat, leave_room, release_session, release_seat,
}
use fear_online_server.Game.Open.Seats.{
  IsOpen, IsManned, create_place-IsOpen, sit-IsOpen, vacate-IsOpen,
}
use fear_online_server.Game.Open.Keeps.{
  Keeps, keeps, then-Keeps, given-Keeps, fail-Keeps, gets-Keeps, pure-Keeps, unless_none-Keeps,
  modify-Keeps, change_places-Keeps,
}
use fear_online_server.Game.Open.Sending.{send_all-Keeps, broadcast_room-Keeps, welcome_user-Keeps}

IsFresh-IsManned : (p : Player) (r : Room) → IsFresh p r → IsManned r
IsFresh-IsManned p r (fits, one, leads) =
    (subst (λ us. 0 < length us) (sym one) (omega arith), fits.within)

stand_nowhere-IsOpen : (x : ℕ) (p : Places) → IsOpen p → IsOpen (stand_nowhere x p)
unfolding stand_nowhere
stand_nowhere-IsOpen x p o = o

module _ {S : Type 0} (env : Env S) where
  vacate_seat-Keeps : (h user : ℕ) → Keeps (vacate_seat env h user)
  unfolding vacate_seat
  vacate_seat-Keeps h user = record { kept = λ w o. vacate-IsOpen h user w.places o }

  stand_nowhere-Keeps : (x : ℕ) → Keeps {S = S} {A = Unit {0}} (change_places (stand_nowhere x))
  stand_nowhere-Keeps x = change_places-Keeps (stand_nowhere x) (stand_nowhere-IsOpen x)

  settled-IsOpen :
      (x : ℕ) (r : Room) (w : World S) (q : Option Places)
      → IsManned r
      → create_place x r w.places ≡ q
      → IsOpen w.places
      → IsOpen (settled env w q).1.places
  settled-IsOpen x r w none manned e o = o
  settled-IsOpen x r w (some q) manned e o = create_place-IsOpen x r w.places q manned e o

  settle_room-Keeps : (x : ℕ) (r : Room) → IsManned r → Keeps (settle_room env x r)
  unfolding settle_room
  settle_room-Keeps x r manned = record {
    kept = λ w o. settled-IsOpen x r w (create_place x r w.places) manned refl o;
  }

  create_parsed-Keeps :
      (x : ℕ) (c : Creation) (body : List ℕ) (p : Player)
      → parse_create env.text env.catalog body p ≡ c
      → Keeps (create_parsed env x c)
  create_parsed-Keeps x (failed e) body p q = fail-Keeps
  create_parsed-Keeps x (created r) body p q =
      let manned = IsFresh-IsManned p r (parse_create-IsFresh env.text env.catalog body p r q) in
      then-Keeps (settle_room-Keeps x r manned) (λ h. search (keeps, send_all-Keeps) depth 8)

  pub create_room-Keeps : (x : ℕ) (body : List ℕ) → Keeps (create_room env x body)
  unfolding create_room
  create_room-Keeps x body = then-Keeps (gets-Keeps _) (λ account.
      then-Keeps (given-Keeps account)
        (λ p. create_parsed-Keeps x (parse_create env.text env.catalog body p) body p refl))

  refuse_join-Keeps : (x : ℕ) → Keeps (refuse_join env x)
  unfolding refuse_join
  refuse_join-Keeps x = search keeps

  seated-IsOpen :
      (x h : ℕ) (u : RoomUser) (r : Option (RoomUser × Room)) (w : World S)
      → add_user (w.places.heap h) u ≡ r
      → IsOpen w.places
      → IsOpen (seated env x h r w).1.places
  seated-IsOpen x h u none w e o = (refuse_join-Keeps x).kept w o
  seated-IsOpen x h u (some (v, r)) w e o =
      (welcome_user-Keeps env x h v).kept (record w { places = sit x h (v, r) w.places })
        (sit-IsOpen x h u v r w.places e o)

  take_seat-Keeps : (x h : ℕ) (p : Player) → Keeps (take_seat env x h p)
  unfolding take_seat
  take_seat-Keeps x h p = record {
    kept = λ w o.
        let u = user_of p (next_team (w.places.heap h)) in
        seated-IsOpen x h u (add_user (w.places.heap h) u) w refl o;
  }

  join_found-Keeps :
      (x : ℕ) (password : String) (p : Player) (found : Option ℕ)
      → Keeps (join_found env x password p found)
  join_found-Keeps x password p none = refuse_join-Keeps x
  join_found-Keeps x password p (some h) = search (keeps, refuse_join-Keeps, take_seat-Keeps)

  join_with-Keeps :
      (x number : ℕ) (p : Player) (r : Read (List ℕ)) → Keeps (join_with env x number p r)
  join_with-Keeps x number p (malformed e) = refuse_join-Keeps x
  join_with-Keeps x number p (read password next) = search (keeps, join_found-Keeps)

  pub join_room-Keeps : (x : ℕ) (body : List ℕ) → Keeps (join_room env x body)
  unfolding join_room
  join_room-Keeps x body = search (keeps, join_with-Keeps) depth 8

  leave_seat-Keeps : (x h : ℕ) → Keeps (leave_seat env x h)
  unfolding leave_seat
  leave_seat-Keeps x h = search (keeps, vacate_seat-Keeps, broadcast_room-Keeps) depth 8

  pub leave_room-Keeps : (x : ℕ) (body : List ℕ) → Keeps (leave_room env x body)
  unfolding leave_room
  leave_room-Keeps x body = search (keeps, leave_seat-Keeps, stand_nowhere-Keeps) depth 8

  release_seat-Keeps : (x h : ℕ) → Keeps (release_seat env x h)
  release_seat-Keeps x h =
      then-Keeps (gets-Keeps _)
        (λ user. then-Keeps (vacate_seat-Keeps h user) (λ empty. stand_nowhere-Keeps x))

  pub release_session-Keeps : (x : ℕ) → Keeps (release_session env x)
  unfolding release_session
  release_session-Keeps x = then-Keeps (gets-Keeps _) (λ found.
      then-Keeps (unless_none-Keeps found (pure-Keeps tt) (release_seat-Keeps x))
        (λ u. modify-Keeps (λ w. record w { registry = unbind w.registry x }) (λ w. refl)))

  pub join_lobby-Keeps : (x : ℕ) (body : List ℕ) → Keeps (join_lobby env x body)
  unfolding join_lobby
  join_lobby-Keeps x body = search keeps

  pub leave_lobby-Keeps : (x : ℕ) (body : List ℕ) → Keeps (leave_lobby env x body)
  unfolding leave_lobby
  leave_lobby-Keeps x body = search keeps

  pub lobby_list-Keeps : (x : ℕ) (body : List ℕ) → Keeps (lobby_list env x body)
  unfolding lobby_list
  lobby_list-Keeps x body = search keeps

  pub room_list-Keeps : (x : ℕ) (body : List ℕ) → Keeps (room_list env x body)
  unfolding room_list
  room_list-Keeps x body = search keeps

  pub clan_room_list-Keeps : (x : ℕ) (body : List ℕ) → Keeps (clan_room_list env x body)
  unfolding clan_room_list
  clan_room_list-Keeps x body = search keeps

  pub lobby_user_list-Keeps : (x : ℕ) (body : List ℕ) → Keeps (lobby_user_list env x body)
  unfolding lobby_user_list
  lobby_user_list-Keeps x body = search keeps
