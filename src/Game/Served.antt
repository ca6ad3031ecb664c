-- ===== src/Game/Served.antt =====
-- server.go: the server from what its connections read to the state of the whole. A handler of one
-- connection is run with that connection's session among the others.
use fear_online_server.Prelude.{ℕ, Bool, true, false, List, [], ◌∷◌, Option, none, some}
use fear_online_server.Prelude.NatMap.{value_at, put, remove_key}
use fear_online_server.Wire.Frame.{Frame}
use fear_online_server.Server.{Session, Outcome, Config, Handler, new_session, handle_frame}
use fear_online_server.Game.{World, Env}
use fear_online_server.Game.Rooms.{release_session}
use fear_online_server.Game.Table.{Served, handlers}

-- What happens: a connection is accepted, a frame has arrived on it, or it ends.
pub data Event : Type 0 where
  accepts : ℕ → List Outcome → Event
  receives : ℕ → Frame → Event
  drops : ℕ → Event

abbrev session_or : Session → Option Session → Session
session_or s none = s
session_or s (some t) = t

module _ {S : Type 0} where
  abbrev pub ran : ℕ → Session → Option (Unit {0}) × World S → Session × World S
  ran x s (r, w) = (session_or s (value_at x w.connections), w)

  -- A handler, as the connection's loop calls it.
  abbrev pub called : ℕ → Served S → Handler (World S)
  called x f msg (s, w) = ran x s (f x msg.body (record w { connections = put x s w.connections }))

  abbrev pub called_all : ℕ → List (ℕ × Served S) → List (ℕ × Handler (World S))
  called_all x [] = []
  called_all x ((id, f) ∷ entries) = (id, called x f) ∷ called_all x entries

  module _ (config : Config) (env : Env S) where
    -- The deferred calls of handleConnection.
    abbrev pub ended : ℕ → World S → World S
    ended x w =
        let after = (release_session env x w).1 in
        record after { connections = remove_key x after.connections }

    abbrev pub framed : ℕ → Bool × Session × World S → World S
    framed x (true, s, w) = record w { connections = put x s w.connections }
    framed x (false, s, w) = ended x (record w { connections = put x s w.connections })

    abbrev pub framed_on : ℕ → Frame → World S → Option Session → World S
    framed_on x frame w none = w
    framed_on x frame w (some s) =
        framed x (handle_frame config (called_all x (handlers env)) frame (s, w))

    unfoldable pub happen : Event → World S → World S
    unfolding handle_frame release_session handlers
    happen (accepts x outcomes) w = record w {
      connections = put x (new_session outcomes) w.connections;
    }
    happen (receives x frame) w = framed_on x frame w (value_at x w.connections)
    happen (drops x) w = ended x w

    unfoldable pub happen_all : List Event → World S → World S
    unfolding happen
    happen_all [] w = w
    happen_all (e ∷ events) w = happen_all events (happen e w)
