-- ===== src/Game.antt =====
-- server/internal/proudnet: the handlers of the messages, on one state of the whole server. A handler runs
-- from its first to its last line; its error is only logged, so an error carries nothing.
pub mod Ids
pub mod Seating
pub mod Broadcast
pub mod Start
pub mod Rooms
pub mod Rounds
pub mod Matches
pub mod Equips
pub mod Items
pub mod Clans
pub mod Friends
pub mod Chat
pub mod Login
pub mod Profile
pub mod Table
pub mod Refusals
pub mod Leaving
pub mod Launcher
mod Runs
pub mod Served
pub mod Open
use fear_online_server.Prelude.{
  ℕ, suc, ◌+◌, String, Bool, true, false, ◌==◌, if◌then◌else◌, List, [], ◌∷◌, Option, none, some,
}
use fear_online_server.Prelude.NatMap.{value_at, put}
use fear_online_server.Models.Item.{Time}
use fear_online_server.Models.Player.{Player}
use fear_online_server.Models.Clan.{Clan}
use fear_online_server.Catalog.{Catalog}
use fear_online_server.Repositories.Exec.{Exec, Result, ok, err}
use fear_online_server.Repositories.Interface.{PlayerRepository, ClanRepository}
use fear_online_server.Wire.Cipher.{BlockCipher}
use fear_online_server.Wire.Rmi.{Message}
use fear_online_server.Rooms.Room.{Room}
use fear_online_server.Rooms.Registry.{RoomRegistry}
use fear_online_server.Rooms.Sessions.{SessionRegistry, sessions}
use fear_online_server.Identity.{
  SessionData, States, Credentials, resolve_player, session_room, session_room_user,
  set_session_player,
}
use fear_online_server.Match.{MatchTickets, MatchSessions}
use fear_online_server.Server.{Session, send_plain, send_encrypted}

-- What the handlers know of sessions and rooms. A `*Room` is a handle into the heap, and the handles from
-- `fresh` on are unused.
pub record Places : Type 0 where
  pub states : States
  pub heap : ℕ → Room
  pub fresh : ℕ
  pub rooms : RoomRegistry

-- The server: what the handlers share, and the connections that are open. The clock has been read `ticks`
-- times.
pub record World (S : Type 0) : Type 0 where
  pub places : Places
  pub connections : List (ℕ × Session)
  pub registry : SessionRegistry
  pub tickets : MatchTickets
  pub matches : MatchSessions
  pub credentials : Credentials
  pub ticks : ℕ
  pub store : S

-- Channel of channel.go.
pub record Channel : Type 0 where
  pub server_id : ℕ
  pub id : ℕ
  pub kind : ℕ
  pub name : String
  pub host : String
  pub port : ℕ
  pub max_users : ℕ

-- What the server is started with, and what its libraries do: `search_by_name` is the search of the clans'
-- store, `text` and `runes` convert between a string
-- and its runes, `clock` is time.Now by the number of readings, `date` the calendar, `cut` the first bytes of
-- a string, `address` the remote address of a connection.
pub record Env (S : Type 0) : Type 0 where
  pub players : PlayerRepository S
  pub clans : ClanRepository S
  pub search_by_name : String → (limit : ℕ) → Exec S (List Clan)
  pub catalog : Catalog
  pub starting_point : ℕ
  pub starting_cash : ℕ
  pub channels : List Channel
  pub game_host : String
  pub game_port : ℕ
  pub cipher : BlockCipher
  pub text : List ℕ → String
  pub runes : String → List ℕ
  pub trim_space : String → String
  pub cut : ℕ → String → String
  pub hex : List ℕ → String
  pub parse_uint : String → Option ℕ
  pub fnv : String → ℕ
  pub crc32 : String → ℕ
  pub to_lower : String → String
  pub date : Time → ℕ × ℕ × ℕ
  pub clock : ℕ → Time
  pub address : ℕ → Option String

-- What is done returns a value or an error, with the state.
abbrev pub Act : Type 0 → Type 0 → Type 0
Act S A = World S → Option A × World S

module _ {S : Type 0} where
  abbrev pub pure : {A : Type 0} → A → Act S A
  pure a w = (some a, w)

  abbrev pub fail : {A : Type 0} → Act S A
  fail w = (none, w)

  abbrev pub then_act : {A B : Type 0} → Option A → (A → Act S B) → Act S B
  then_act none f w = (none, w)
  then_act (some a) f w = f a w

  infixl 5 ◌>>=◌ ◌>>◌
  abbrev pub ◌>>=◌ : {A B : Type 0} → Act S A → (A → Act S B) → Act S B
  ◌>>=◌ m f w = then_act (m w).0 f (m w).1

  abbrev pub ◌>>◌ : {B : Type 0} → Act S (Unit {0}) → Act S B → Act S B
  m >> n = m >>= λ _. n

  abbrev pub gets : {A : Type 0} → (World S → A) → Act S A
  gets f w = (some (f w), w)

  abbrev pub modify : (World S → World S) → Act S (Unit {0})
  modify f w = (some tt, f w)

  -- `if err := …; err != nil { log }`.
  abbrev pub attempt : Act S (Unit {0}) → Act S (Unit {0})
  attempt m w = (some tt, (m w).1)

  abbrev pub given : {A : Type 0} → Option A → Act S A
  given none = fail
  given (some a) = pure a

  -- A list of things to do, each of which may fail; `each_of` stops there.
  abbrev pub each_of : {A : Type 0} → (A → Act S (Unit {0})) → List A → Act S (Unit {0})
  each_of f [] = pure tt
  each_of f (x ∷ xs) = f x >> each_of f xs

  abbrev pub change_places : (Places → Places) → Act S (Unit {0})
  change_places f = modify (λ w. record w { places = f w.places })

  abbrev pub sent_by : ℕ → Bool × Session → Act S (Unit {0})
  sent_by x (true, s) w = (some tt, record w { connections = put x s w.connections })
  sent_by x (false, s) w = (none, record w { connections = put x s w.connections })

  -- A session whose connection is gone takes no message.
  abbrev pub send_to : ℕ → Message → Option Session → Act S (Unit {0})
  send_to x msg none = fail
  send_to x msg (some s) = sent_by x (send_plain msg s)

  -- Session.SendPlain.
  unfoldable pub send : ℕ → (id : ℕ) → List ℕ → Act S (Unit {0})
  send x id body w = send_to x (record { id = id; body = body }) (value_at x w.connections) w

  abbrev pub enciphered : BlockCipher → ℕ → Message → Option Session → Act S (Unit {0})
  enciphered c x msg none = fail
  enciphered c x msg (some s) = sent_by x (send_encrypted c msg s)

  unfoldable pub send_secret : BlockCipher → ℕ → (id : ℕ) → List ℕ → Act S (Unit {0})
  send_secret c x id body w =
      enciphered c x (record { id = id; body = body }) (value_at x w.connections) w

  -- The account of a session that has one.
  abbrev pub account_of : ℕ → Act S (Option Player)
  account_of x = gets (λ w. resolve_player w.places.states x)

  abbrev pub room_of_session : ℕ → Act S (Option ℕ)
  room_of_session x = gets (λ w. session_room w.places.states x)

  abbrev pub user_of_session : ℕ → Act S ℕ
  user_of_session x = gets (λ w. session_room_user w.places.states x)

  abbrev pub room_at : ℕ → Act S Room
  room_at h = gets (λ w. w.places.heap h)

  abbrev pub keep_player : ℕ → Player → Act S (Unit {0})
  keep_player x p = change_places (λ q. record q { states = set_session_player q.states x p })

  abbrev pub sessions_of : String → Act S (List ℕ)
  sessions_of steam_id = gets (λ w. sessions w.registry steam_id)

  -- A call of a service.
  abbrev pub served : {A : Type 0} → World S → Result A × S → Option (Result A) × World S
  served w (r, s) = (some r, record w { store = s })

  abbrev pub serve : {A : Type 0} → Exec S A → Act S (Result A)
  serve m w = served w (m w.store)

  -- `if err != nil { … }` and the rest.
  abbrev pub unless_error :
      {A : Type 0} → Result A → Act S (Unit {0}) → (A → Act S (Unit {0})) → Act S (Unit {0})
  unless_error (ok a) refuse f = f a
  unless_error (err e) refuse f = refuse

  abbrev pub unless_none :
      {A : Type 0} → Option A → Act S (Unit {0}) → (A → Act S (Unit {0})) → Act S (Unit {0})
  unless_none (some a) refuse f = f a
  unless_none none refuse f = refuse

  abbrev pub read_clock : Env S → Act S Time
  read_clock env w = (some (env.clock w.ticks), record w { ticks = suc w.ticks })
