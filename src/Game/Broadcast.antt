-- ===== src/Game/Broadcast.antt =====
-- broadcastRoom and broadcastRoomExcept of room.go, tellMatch and matchSnapshot's parts of game_session.go,
-- SendPlain of session_registry.go: one message to several sessions.
use fear_online_server.Prelude.{
  ℕ, String, Bool, false, ◌==◌, if◌then◌else◌, List, Option, none, some,
}
use fear_online_server.Rooms.Sessions.{sessions}
use fear_online_server.Identity.{in_room}
use fear_online_server.Match.{in_match}
use fear_online_server.Game.{Act, pure, ◌>>=◌, gets, attempt, each_of, send, room_at, sessions_of}

-- Several messages to one session, up to the first that it does not take.
abbrev pub send_all : {S : Type 0} → ℕ → List (ℕ × List ℕ) → Act S (Unit {0})
send_all x msgs = each_of (λ m. send x m.0 m.1) msgs

abbrev is_skipped : Option ℕ → ℕ → Bool
is_skipped none x = false
is_skipped (some skip) x = x == skip

module _ {S : Type 0} where
  abbrev pub sessions_in_room : ℕ → Act S (List ℕ)
  sessions_in_room number = gets (λ w. in_room w.places.heap w.places.states w.registry number)

  unfoldable pub broadcast_room_except : ℕ → Option ℕ → (id : ℕ) → List ℕ → Act S (Unit {0})
  unfolding in_room
  broadcast_room_except h skip id body = do
    room ← room_at h
    xs ← sessions_in_room room.number
    each_of (λ x. if is_skipped skip x then pure tt else attempt (send x id body)) xs

  unfoldable pub broadcast_room : ℕ → (id : ℕ) → List ℕ → Act S (Unit {0})
  unfolding broadcast_room_except
  broadcast_room h id body = broadcast_room_except h none id body

  unfoldable pub tell_match : ℕ → (id : ℕ) → List ℕ → Act S (Unit {0})
  unfolding in_match
  tell_match h id body = do
    room ← room_at h
    xs ← gets (λ w. in_match w.matches room.number)
    each_of (λ x. attempt (send x id body)) xs

  -- SessionRegistry.SendPlain goes on after an error; its callers log the first one only.
  unfoldable pub push : String → (id : ℕ) → List ℕ → Act S (Unit {0})
  unfolding sessions
  push steam_id id body = do xs ← sessions_of steam_id; each_of (λ x. attempt (send x id body)) xs

  -- Several messages to each session of an account, up to the first that the session does not take.
  unfoldable pub send_to_account : String → List (ℕ × List ℕ) → Act S (Unit {0})
  unfolding sessions
  send_to_account steam_id msgs = do
    xs ← sessions_of steam_id
    each_of (λ x. attempt (send_all x msgs)) xs
