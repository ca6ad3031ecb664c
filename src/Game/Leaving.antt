-- ===== src/Game/Leaving.antt =====
-- What is left of a session when its connection ends.
use fear_online_server.Prelude.{
  ℕ, ◌≡◌, refl, ◌∙◌, sym, ap, true, ◌==◌, List, [], ◌∷◌, length, Option, none, some, Option-cases,
  inl, inr, arith, remove_by, find_by,
}
use fear_online_server.Prelude.NatMap.{value_at, value_at-put, value_at-remove_key}
use fear_online_server.Rooms.Room.{Room, RoomUser, remove_user, room_member}
use fear_online_server.Rooms.Room.Seats.{OtherSeats, DistinctSeats}
use fear_online_server.Rooms.Registry.{RoomRegistry, find_room, close_room}
use fear_online_server.Identity.{
  States, SessionData, session_room, session_room_user, set_session_room, change_state, room_of,
}
use fear_online_server.Game.{World, Places, Env}
use fear_online_server.Game.Seating.{vacate}
use fear_online_server.Game.Rooms.{release_session}

nowhere :
    (x : ℕ) (states : States) (d : Option SessionData)
    → value_at x states ≡ d
    → room_of (value_at x (change_state states x (λ d. record d { room = none }) d)) ≡ none
nowhere x states none e = rw e refl
nowhere x states (some d) e =
    let same : (x == x) ≡ true = ground arith in
    rw (value_at-put x x (record d { room = none }) states, same) refl

nowhere-room : (x : ℕ) (states : States) → session_room (set_session_room states x none) x ≡ none
unfolding session_room set_session_room
nowhere-room x states = nowhere x states (value_at x states) refl

not_member : (id : ℕ) (us : List RoomUser) → OtherSeats id us → find_by (λ u. u.id == id) us ≡ none
not_member id [] h = refl
not_member id (u ∷ us) h = ground (arith, not_member id us h.1)

not_removed :
    (id : ℕ) (us : List RoomUser)
    → remove_by (λ u. u.id == id) us ≡ none
    → find_by (λ u. u.id == id) us ≡ none
not_removed id [] e = refl
not_removed id (u ∷ us) e = elim (Option-cases (remove_by (λ u. u.id == id) us)) [
  | inl d ↦ ground (arith, d, not_removed id us d)
  | inr (r, d) ↦ ground (arith, d)
]

removed-member :
    (id : ℕ) (us : List RoomUser) (u : RoomUser) (rest : List RoomUser)
    → DistinctSeats us
    → remove_by (λ u. u.id == id) us ≡ some (u, rest)
    → find_by (λ u. u.id == id) rest ≡ none
removed-member id [] u rest d e = absurd (cc)
removed-member id (x ∷ us) u rest d e = elim (Option-cases (remove_by (λ u. u.id == id) us)) [
  | inl q ↦ ground (arith, q, not_removed id us q)
  | inr ((y, left), q) ↦
      ground (arith, q, removed-member id us y left d.1 q, not_member x.id us d.0)
]

remove_user-member :
    (r : Room) (id : ℕ) → DistinctSeats r.users → room_member (remove_user r id).2 id ≡ none
unfolding remove_user room_member
remove_user-member r id d = elim (Option-cases (remove_by (λ u. u.id == id) r.users)) [
  | inl q ↦ rw q (not_removed id r.users q)
  | inr ((u, rest), q) ↦ rw q (removed-member id r.users u rest d q)
]

-- Whether RemoveUser says that the room is empty.
remove_user-empty :
    (r : Room) (id : ℕ)
    → ((remove_user r id).1 ≡ (length (remove_user r id).2.users == 0))
      × ((remove_user r id).2.number ≡ r.number)
unfolding remove_user
remove_user-empty r id = elim (Option-cases (remove_by (λ u. u.id == id) r.users)) [
  | inl q ↦ rw q (refl, refl)
  | inr ((u, rest), q) ↦ rw q (refl, refl)
]

closed-find :
    (rooms : RoomRegistry) (number n : ℕ)
    → n ≡ number
    → find_room (close_room rooms number) n ≡ none
unfolding find_room close_room
closed-find rooms number n e =
    let same : (number == n) ≡ true = ground arith in
    value_at-remove_key number n rooms.rooms ∙ rw same refl

module _ (h user : ℕ) (p : Places) where
  vacate-heap : (vacate h user p).1.heap h ≡ (remove_user (p.heap h) user).2
  unfolding vacate
  vacate-heap = let same : (h == h) ≡ true = ground arith in rw same refl

  vacate-closed :
      length ((vacate h user p).1.heap h).users ≡ 0
      → find_room (vacate h user p).1.rooms (p.heap h).number ≡ none
  unfolding vacate
  vacate-closed e =
      let (says, number) = remove_user-empty (p.heap h) user in
      let size : length (remove_user (p.heap h) user).2.users ≡ 0 =
        ap (λ r. length r.users) (sym vacate-heap) ∙ e in
      let empty : (remove_user (p.heap h) user).1 ≡ true = says ∙ rw size refl in
      rw empty
        (closed-find p.rooms (remove_user (p.heap h) user).2.number (p.heap h).number (sym number))

module _ {S : Type 0} (env : Env S) where
  -- A session that stands in a room whose seats have different ids: when its connection ends, it stands in
  -- no room, nobody holds its seat in the room that it stood in, and if that leaves the room empty, then
  -- the room's number finds no room any more.
  pub release_session-leaves :
      (x h : ℕ) (w : World S)
      → session_room w.places.states x ≡ some h
      → DistinctSeats (w.places.heap h).users
      → let after = (release_session env x w).1.places in
        (session_room after.states x ≡ none)
        × (room_member (after.heap h) (session_room_user w.places.states x) ≡ none)
        × (length (after.heap h).users ≡ 0 → find_room after.rooms (w.places.heap h).number ≡ none)
  unfolding release_session
  release_session-leaves x h w stands distinct =
      let user = session_room_user w.places.states x in
      rw stands (
        nowhere-room x w.places.states,
        ap (λ r. room_member r user) (vacate-heap h user w.places)
            ∙ remove_user-member (w.places.heap h) user distinct,
        vacate-closed h user w.places,
      )
