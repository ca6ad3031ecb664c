-- ===== src/Game/Open/Matches.antt =====
-- The handlers of a match, and `ready`, keep the open rooms.
use fear_online_server.Prelude.{
  ℕ, suc, ◌≡◌, refl, ap, String, Bool, true, false, List, [], ◌∷◌, length, arith, update_by,
  find_by, Option-cases, Bool-cases, not, ◌&&◌, leb, inl, inr, ◌==◌,
}
use fear_online_server.Rooms.Room.{
  Room, RoomUser, toggled, toggle_ready, round_or_one, next_round, finish_round, record_death,
  score_all,
}
use fear_online_server.Game.{World, Places, Env, change_places}
use fear_online_server.Game.Seating.{change_room}
use fear_online_server.Game.Rooms.{ready, ready_in, tell_toggled, toggled_by}
use fear_online_server.Game.Start.{
  draw_ticket, start_member, start_match, begin_match, game_start, solo_start_on_ready,
}
use fear_online_server.Game.Rounds.{
  death, death_in, time_out, time_out_in, begin_round, tell_all, the_room,
}
use fear_online_server.Game.Open.Seats.{IsOpen, IsManned, write-IsOpen}
use fear_online_server.Game.Open.Keeps.{Keeps, keeps, then-Keeps, change_places-Keeps}
use fear_online_server.Game.Open.Sending.{broadcast_room-Keeps, tell_match-Keeps}

-- What a change of a room keeps of it.
abbrev SameSeats : Room → Room → Type 0
SameSeats r s =
    (s.number ≡ r.number) × (s.max_users ≡ r.max_users) × (length s.users ≡ length r.users)

SameSeats-IsManned : (r s : Room) → SameSeats r s → IsManned r → IsManned s
SameSeats-IsManned r s (number, max, size) manned = (omega (arith, size), omega (arith, size, max))

length-score_all : (k v a : ℕ) (us : List RoomUser) → length (score_all k v a us) ≡ length us
unfolding score_all
length-score_all k v a [] = refl
length-score_all k v a (u ∷ us) = ap (λ n. suc n) (length-score_all k v a us)

record_death-SameSeats : (k v a : ℕ) (r : Room) → SameSeats r (record_death r k v a)
unfolding record_death
record_death-SameSeats k v a r = (refl, refl, length-score_all k v a r.users)

hosted-SameSeats : (host : String) (r : Room) → SameSeats r (record r { host = host })
hosted-SameSeats host r = (refl, refl, refl)

next_round-SameSeats : (r : Room) → SameSeats r (next_round r).1
unfolding next_round
next_round-SameSeats r = (refl, refl, refl)

finish_round-SameSeats : (r : Room) → SameSeats r (the_room (finish_round r))
unfolding finish_round
finish_round-SameSeats r =
    elim (Bool-cases (not (r.round_limit == 0) && leb r.round_limit (round_or_one r))) [
      | inl last ↦ rw last (refl, refl, refl)
      | inr more ↦ rw more (refl, refl, refl)
    ]

length-update_by :
    (test : RoomUser → Bool) (f : RoomUser → RoomUser) (us : List RoomUser)
    → length (update_by test f us) ≡ length us
length-update_by test f [] = refl
length-update_by test f (u ∷ us) = ground (arith, length-update_by test f us)

toggle_ready-SameSeats : (r : Room) (id : ℕ) → SameSeats r (toggle_ready r id).2
unfolding toggle_ready
toggle_ready-SameSeats r id = elim (Option-cases (find_by (λ u. u.id == id) r.users)) [
  | inl d ↦ rw d (refl, refl, refl)
  | inr (u, d) ↦ rw d (refl, refl, length-update_by (λ v. v.id == id) toggled r.users)
]

-- One room changed, at this moment.
changed-IsOpen :
    (h : ℕ) (f : Room → Room) (p : Places)
    → SameSeats (p.heap h) (f (p.heap h))
    → IsOpen p
    → IsOpen (change_room h f p)
unfolding change_room
changed-IsOpen h f p same o =
    write-IsOpen p h (f (p.heap h)) o same.0 (SameSeats-IsManned (p.heap h) (f (p.heap h)) same)

module _ {S : Type 0} where
  change_room-Keeps :
      (h : ℕ) (f : Room → Room)
      → ((r : Room) → SameSeats r (f r))
      → Keeps {S = S} {A = Unit {0}} (change_places (change_room h f))
  change_room-Keeps h f same =
      change_places-Keeps (change_room h f) (λ p. changed-IsOpen h f p (same (p.heap h)))

  death_in-Keeps : (x : ℕ) (body : List ℕ) (h : ℕ) → Keeps {S = S} (death_in x body h)
  unfolding death_in
  death_in-Keeps x body h =
      search (keeps, tell_match-Keeps, change_room-Keeps, record_death-SameSeats) depth 9

  pub death-Keeps : (x : ℕ) (body : List ℕ) → Keeps {S = S} (death x body)
  unfolding death
  death-Keeps x body = search (keeps, death_in-Keeps)

  tell_all-Keeps : (h : ℕ) (msgs : List (ℕ × List ℕ)) → Keeps {S = S} (tell_all h msgs)
  tell_all-Keeps h [] = search keeps
  tell_all-Keeps h (m ∷ msgs) = then-Keeps (tell_match-Keeps h m.0 m.1) (λ u. tell_all-Keeps h msgs)

  time_out_in-Keeps : (x h : ℕ) → Keeps {S = S} (time_out_in x h)
  unfolding time_out_in
  time_out_in-Keeps x h =
      search (keeps, tell_match-Keeps, change_room-Keeps, finish_round-SameSeats, tell_all-Keeps)
        depth 9

  pub time_out-Keeps : (x : ℕ) (body : List ℕ) → Keeps {S = S} (time_out x body)
  unfolding time_out
  time_out-Keeps x body = search (keeps, time_out_in-Keeps)

  pub begin_round-Keeps : (x : ℕ) (body : List ℕ) → Keeps {S = S} (begin_round x body)
  unfolding begin_round
  begin_round-Keeps x body =
      search (keeps, tell_match-Keeps, change_room-Keeps, next_round-SameSeats) depth 9

  module _ (env : Env S) where
    draw_ticket-Keeps : (h user : ℕ) → Keeps (draw_ticket env h user)
    draw_ticket-Keeps h user = record { kept = λ w o. o }

    start_member-Keeps : (h x : ℕ) → Keeps (start_member env h x)
    unfolding start_member
    start_member-Keeps h x = search (keeps, draw_ticket-Keeps) depth 8

    start_match-Keeps : (h : ℕ) (host : String) → Keeps (start_match env h host)
    unfolding start_match
    start_match-Keeps h host =
        search
          (keeps, change_room-Keeps, hosted-SameSeats, broadcast_room-Keeps, start_member-Keeps)
          depth 9

    begin_match-Keeps : (leader h : ℕ) → Keeps (begin_match env leader h)
    unfolding begin_match
    begin_match-Keeps leader h = search (keeps, start_match-Keeps)

    pub game_start-Keeps : (x : ℕ) (body : List ℕ) → Keeps (game_start env x body)
    unfolding game_start
    game_start-Keeps x body = search (keeps, begin_match-Keeps) depth 9

    solo_start_on_ready-Keeps : (x h state : ℕ) → Keeps (solo_start_on_ready env x h state)
    unfolding solo_start_on_ready
    solo_start_on_ready-Keeps x h state = search (keeps, begin_match-Keeps) depth 9

    tell_toggled-Keeps : (x h user state : ℕ) → Keeps (tell_toggled env x h user state)
    unfolding tell_toggled
    tell_toggled-Keeps x h user state =
        search (keeps, broadcast_room-Keeps, solo_start_on_ready-Keeps)

    toggled-IsOpen :
        (x h user : ℕ) (r : ℕ × Bool × Room) (w : World S)
        → SameSeats (w.places.heap h) r.2
        → IsOpen w.places
        → IsOpen (toggled_by env x h user r w).1.places
    toggled-IsOpen x h user (state, false, room) w same o = o
    toggled-IsOpen x h user (state, true, room) w same o =
        (tell_toggled-Keeps x h user state).kept
          (record w { places = change_room h (λ r. room) w.places })
          (changed-IsOpen h (λ r. room) w.places same o)

    ready_in-Keeps : (x h user : ℕ) → Keeps (ready_in env x h user)
    ready_in-Keeps x h user = record {
      kept = λ w o.
          toggled-IsOpen x h user (toggle_ready (w.places.heap h) user) w
            (toggle_ready-SameSeats (w.places.heap h) user) o;
    }

    pub ready-Keeps : (x : ℕ) (body : List ℕ) → Keeps (ready env x body)
    unfolding ready
    ready-Keeps x body = search (keeps, ready_in-Keeps)
