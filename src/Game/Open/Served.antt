-- ===== src/Game/Open/Served.antt =====
-- All that happens on the server keeps the open rooms.
use fear_online_server.Prelude.{
  ℕ, Bool, true, false, not, ◌==◌, Bool-cases, inl, inr, if◌then◌else◌, List, [], ◌∷◌, All, Option,
  none, some,
}
use fear_online_server.Prelude.NatMap.{value_at, put}
use fear_online_server.Wire.Frame.{Frame}
use fear_online_server.Wire.Rmi.{
  Message, Opened, opened, refused, is_internal, decode_encrypted, decode_plain,
}
use fear_online_server.Wire.Handshake.{
  Setup, established, Connect, connect, broken, build_server_connect_success,
}
use fear_online_server.Server.{
  Session, Config, Handler, handled, dispatch, sent_in, set_up, connected, decoded, plain,
  handle_encrypted, handle_plain, handle_frame, send_reliable, server_auth_success,
}
use fear_online_server.Game.{World, Env}
use fear_online_server.Game.Table.{Served, handlers}
use fear_online_server.Game.Served.{
  ran, called_all, ended, framed, framed_on, Event, accepts, receives, drops, happen, happen_all,
}
use fear_online_server.Game.Open.Seats.{IsOpen}
use fear_online_server.Game.Open.Rooms.{release_session-Keeps}
use fear_online_server.Game.Open.Table.{KeepsServed, handlers-Keeps}

module _ {S : Type 0} where
  ran-IsOpen :
      (x : ℕ) (s : Session) (r : Option (Unit {0}) × World S)
      → IsOpen r.1.places
      → IsOpen (ran x s r).1.places
  ran-IsOpen x s (r, w) o = o

  -- A handler of the connection's loop.
  abbrev KeepsOpen : Handler (World S) → Type 0
  KeepsOpen f =
      (msg : Message) (st : Session × World S) → IsOpen st.1.places → IsOpen (f msg st).1.places

  called_all-KeepsOpen :
      (x : ℕ) (entries : List (ℕ × Served S))
      → All KeepsServed entries
      → All (λ e. KeepsOpen e.1) (called_all x entries)
  called_all-KeepsOpen x [] h = tt
  called_all-KeepsOpen x ((id, f) ∷ entries) (h, hs) = (
    λ msg st o.
        ran-IsOpen x st.0 (f x msg.body (record st.1 { connections = put x st.0 st.1.connections }))
          ((h x msg.body).kept (record st.1 { connections = put x st.0 st.1.connections }) o),
    called_all-KeepsOpen x entries hs,
  )

  module _ (config : Config) (hs : List (ℕ × Handler (World S)))
      (keep : All (λ e. KeepsOpen e.1) hs) where
    handled-IsOpen :
        (fs : List (ℕ × Handler (World S))) (msg : Message) (st : Session × World S)
        → All (λ e. KeepsOpen e.1) fs
        → IsOpen st.1.places
        → IsOpen (handled config hs (value_at msg.id fs) msg st).1.places
    handled-IsOpen [] msg st h o = o
    handled-IsOpen ((id, f) ∷ fs) msg st (h, k) o = elim (Bool-cases (id == msg.id)) [
      | inl q ↦ rw q (h msg st o)
      | inr q ↦ rw q (handled-IsOpen fs msg st k o)
    ]

    dispatch-IsOpen :
        (msg : Message) (st : Session × World S)
        → IsOpen st.1.places
        → IsOpen (dispatch config hs msg st).1.places
    unfolding dispatch
    dispatch-IsOpen msg st o = handled-IsOpen hs msg st keep o

    -- The world that a step leaves.
    sent_in-IsOpen :
        (r : Bool × Session) (w : World S)
        → IsOpen w.places
        → IsOpen (sent_in config hs r w).2.places
    sent_in-IsOpen (sent, s) w o = o

    set_up-IsOpen :
        (r : Setup) (st : Session × World S)
        → IsOpen st.1.places
        → IsOpen (set_up config hs r st).2.places
    set_up-IsOpen (established key) (s, w) o =
        sent_in-IsOpen
          (send_reliable server_auth_success
            (record s { session_key = key; is_established = true }))
          w o
    set_up-IsOpen (Setup.refused e) (s, w) o = o

    connected-IsOpen :
        (r : Connect) (st : Session × World S)
        → IsOpen st.1.places
        → IsOpen (connected config hs r st).2.places
    connected-IsOpen (connect client) (s, w) o =
        sent_in-IsOpen
          (send_reliable (build_server_connect_success client config.host config.port)
            (record s { connect_guid = client.guid }))
          w o
    connected-IsOpen (broken e) (s, w) o = o

    decoded-IsOpen :
        (r : Opened) (st : Session × World S)
        → IsOpen st.1.places
        → IsOpen (decoded config hs r st).2.places
    decoded-IsOpen (opened msg count) st o = dispatch-IsOpen msg st o
    decoded-IsOpen (refused e) (s, w) o = o

    handle_encrypted-IsOpen :
        (frame : Frame) (st : Session × World S)
        → IsOpen st.1.places
        → IsOpen (handle_encrypted config hs frame st).2.places
    unfolding handle_encrypted
    handle_encrypted-IsOpen frame (s, w) o = elim (Bool-cases (not s.is_established)) [
      | inl q ↦ rw q o
      | inr q ↦
          rw q
            (decoded-IsOpen (decode_encrypted config.cipher s.session_key frame.payload) (s, w) o)
    ]

    plain-IsOpen :
        (r : Option Message) (st : Session × World S)
        → IsOpen st.1.places
        → IsOpen (plain config hs r st).1.places
    plain-IsOpen none st o = o
    plain-IsOpen (some msg) st o = elim (Bool-cases (is_internal msg)) [
      | inl q ↦ rw q o
      | inr q ↦ rw q (dispatch-IsOpen msg st o)
    ]

    -- What a frame leaves.
    record Leaves (r : Bool × Session × World S) : Type 0 where
      left : IsOpen r.2.places

    if-Leaves :
        (b : Bool) {r t : Bool × Session × World S}
        → Leaves r
        → Leaves t
        → Leaves (if b then r else t)
    if-Leaves true o p = o
    if-Leaves false o p = p

    sent_in-Leaves :
        (r : Bool × Session) (w : World S) → IsOpen w.places → Leaves (sent_in config hs r w)
    sent_in-Leaves r w o = record { left = sent_in-IsOpen r w o }

    set_up-Leaves :
        (r : Setup) (st : Session × World S) → IsOpen st.1.places → Leaves (set_up config hs r st)
    set_up-Leaves r st o = record { left = set_up-IsOpen r st o }

    connected-Leaves :
        (r : Connect) (st : Session × World S)
        → IsOpen st.1.places
        → Leaves (connected config hs r st)
    connected-Leaves r st o = record { left = connected-IsOpen r st o }

    handle_encrypted-Leaves :
        (frame : Frame) (st : Session × World S)
        → IsOpen st.1.places
        → Leaves (handle_encrypted config hs frame st)
    handle_encrypted-Leaves frame st o = record { left = handle_encrypted-IsOpen frame st o }

    handle_plain-Leaves :
        (frame : Frame) (s : Session) (w : World S)
        → IsOpen w.places
        → Leaves (let (s', w') = handle_plain config hs frame (s, w) in (true, s', w'))
    unfolding handle_plain
    handle_plain-Leaves frame s w o = record {
      left = plain-IsOpen (decode_plain frame.payload) (s, w) o;
    }

    same-Leaves : (s : Session) (w : World S) → IsOpen w.places → Leaves (true, s, w)
    same-Leaves s w o = record { left = o }

    handle_frame-Leaves :
        (frame : Frame) (s : Session) (w : World S)
        → IsOpen w.places
        → Leaves (handle_frame config hs frame (s, w))
    unfolding handle_frame
    handle_frame-Leaves frame s w o =
        search
          (
            if-Leaves, sent_in-Leaves, set_up-Leaves, connected-Leaves, handle_encrypted-Leaves,
            handle_plain-Leaves, same-Leaves, o,
          )
          depth 9

    handle_frame-IsOpen :
        (frame : Frame) (s : Session) (w : World S)
        → IsOpen w.places
        → IsOpen (handle_frame config hs frame (s, w)).2.places
    handle_frame-IsOpen frame s w o = (handle_frame-Leaves frame s w o).left

  module _ (config : Config) (env : Env S) where
    ended-IsOpen : (x : ℕ) (w : World S) → IsOpen w.places → IsOpen (ended config env x w).places
    ended-IsOpen x w o = (release_session-Keeps env x).kept w o

    framed-IsOpen :
        (x : ℕ) (r : Bool × Session × World S)
        → IsOpen r.2.places
        → IsOpen (framed config env x r).places
    framed-IsOpen x (true, s, w) o = o
    framed-IsOpen x (false, s, w) o =
        ended-IsOpen x (record w { connections = put x s w.connections }) o

    framed_on-IsOpen :
        (x : ℕ) (frame : Frame) (w : World S) (found : Option Session)
        → IsOpen w.places
        → IsOpen (framed_on config env x frame w found).places
    framed_on-IsOpen x frame w none o = o
    framed_on-IsOpen x frame w (some s) o =
        framed-IsOpen x (handle_frame config (called_all x (handlers env)) frame (s, w)) (
          handle_frame-IsOpen config (called_all x (handlers env))
            (called_all-KeepsOpen x (handlers env) (handlers-Keeps env)) frame s w o)

    happen-IsOpen :
        (e : Event) (w : World S) → IsOpen w.places → IsOpen (happen config env e w).places
    unfolding happen
    happen-IsOpen (accepts x outcomes) w o = o
    happen-IsOpen (receives x frame) w o = framed_on-IsOpen x frame w (value_at x w.connections) o
    happen-IsOpen (drops x) w o = ended-IsOpen x w o

    -- Whatever connections are accepted, whatever frames they send and whenever they end, one at a time and
    -- in any order: if at first every number that Find knows leads to a room of that number with at least
    -- one user and no more users than seats, on a handle that is in use, then so it does at the end.
    pub happen_all-IsOpen :
        (events : List Event) (w : World S)
        → IsOpen w.places
        → IsOpen (happen_all config env events w).places
    unfolding happen_all
    happen_all-IsOpen [] w o = o
    happen_all-IsOpen (e ∷ events) w o =
        happen_all-IsOpen events (happen config env e w) (happen-IsOpen e w o)
