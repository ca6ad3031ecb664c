-- ===== src/Game/Refusals.antt =====
-- A request to join a room that is refused.
use fear_online_server.Game.Ids.{rmi_answer_room_join_fail}
use fear_online_server.Prelude.{
  ℕ, ◌≡◌, refl, String, Bool, true, false, not, ◌&&◌, ltb, ◌=ₛ◌, Bool-cases, List, length, Option,
  none, some, ◌⊎◌, inl, inr,
}
use fear_online_server.Prelude.NatMap.{value_at}
use fear_online_server.Models.Player.{Player}
use fear_online_server.Wire.Bytes.{read_uint16}
use fear_online_server.Wire.Read.{read}
use fear_online_server.Wire.Rmi.{Message}
use fear_online_server.Wire.Text.{read_proud_string}
use fear_online_server.Server.{Session, send_plain}
use fear_online_server.Rooms.Room.{add_user, room_is_full}
use fear_online_server.Rooms.Registry.{find_room}
use fear_online_server.Identity.{resolve_player}
use fear_online_server.Game.{World, Env, sent_by, send_to, send}
use fear_online_server.Game.Start.{no_reason}
use fear_online_server.Game.Rooms.{refuse_join, take_seat, join_found, join_room}

-- Why a room takes no one who gives a password: it is not open, the password is another, or it is full.
abbrev pub IsClosedTo : {S : Type 0} → World S → String → Option ℕ → Type 0
IsClosedTo w password none = Unit {0}
IsClosedTo w password (some h) =
    ((not ((w.places.heap h).password =ₛ "") && not ((w.places.heap h).password =ₛ password))
      ≡ true)
    ⊎ (room_is_full (w.places.heap h) ≡ true)

module _ {S : Type 0} where
  sent_by-places : (x : ℕ) (r : Bool × Session) (w : World S) → (sent_by x r w).1.places ≡ w.places
  sent_by-places x (true, s) w = refl
  sent_by-places x (false, s) w = refl

  send_to-places :
      (x : ℕ) (msg : Message) (found : Option Session) (w : World S)
      → (send_to x msg found w).1.places ≡ w.places
  send_to-places x msg none w = refl
  send_to-places x msg (some s) w = sent_by-places x (send_plain msg s) w

  send-places : (x id : ℕ) (body : List ℕ) (w : World S) → (send x id body w).1.places ≡ w.places
  unfolding send
  send-places x id body w =
      send_to-places x (record { id = id; body = body }) (value_at x w.connections) w

  module _ (env : Env S) where
    refuse_join-places : (x : ℕ) (w : World S) → (refuse_join env x w).1.places ≡ w.places
    unfolding refuse_join
    refuse_join-places x w = send-places x rmi_answer_room_join_fail no_reason w

    full-places :
        (x h : ℕ) (p : Player) (w : World S)
        → room_is_full (w.places.heap h) ≡ true
        → (take_seat env x h p w).1.places ≡ w.places
    unfolding take_seat add_user room_is_full
    full-places x h p w full = rw full (refuse_join-places x w)

    join_found-places :
        (x : ℕ) (password : String) (p : Player) (found : Option ℕ) (w : World S)
        → IsClosedTo w password found
        → (join_found env x password p found w).1.places ≡ w.places
    join_found-places x password p none w h = refuse_join-places x w
    join_found-places x password p (some h) w (inl wrong) = rw wrong (refuse_join-places x w)
    join_found-places x password p (some h) w (inr full) =
        elim (Bool-cases (
          not ((w.places.heap h).password =ₛ "") && not ((w.places.heap h).password =ₛ password))) [
            | inl q ↦ rw q (refuse_join-places x w)
            | inr q ↦ rw q (full-places x h p w full)
          ]

    -- An account that asks to join a room, by a body that has a number and a password, where no room of that
    -- number is open, or the room has a password and it is not the one given, or the room has no free seat:
    -- the sessions' data, the rooms and their registry stay as they were.
    pub join_room-refused :
        (x : ℕ) (body : List ℕ) (w : World S) (p : Player) (password : List ℕ) (next : ℕ)
        → resolve_player w.places.states x ≡ some p
        → read_proud_string body 2 ≡ read password next
        → IsClosedTo w (env.text password) (find_room w.places.rooms (read_uint16 body))
        → (join_room env x body w).1.places ≡ w.places
    unfolding join_room
    join_room-refused x body w p password next account line h =
        elim (Bool-cases (ltb (length body) 2)) [
          | inl short ↦ rw (account, short) (refuse_join-places x w)
          | inr long ↦
              rw (account, long, line)
                (join_found-places x (env.text password) p
                  (find_room w.places.rooms (read_uint16 body)) w h)
        ]
