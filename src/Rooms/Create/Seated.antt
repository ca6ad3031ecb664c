-- ===== src/Rooms/Create/Seated.antt =====
-- Who is in a room that has just been created.
use mathlib.Core.Logic.{◌≢◌}
use fear_online_server.Prelude.{
  ℕ, ◌<◌, ◌≡◌, refl, sym, ◌∙◌, ap, subst, String, Bool-cases, true, false, leb, ltb, ◌==◌,
  if◌then◌else◌, arith, List, [], ◌∷◌, length, drop, inl, inr,
}
use fear_online_server.Models.Player.{Player}
use fear_online_server.Catalog.{Catalog}
use fear_online_server.Wire.Read.{Read, read, malformed}
use fear_online_server.Wire.Text.{read_proud_string}
use fear_online_server.Rooms.Room.{Room, RoomUser, add_user, highest_seat}
use fear_online_server.Rooms.Room.Seats.{IsSeated}
use fear_online_server.Rooms.Create.{
  Creation, CreateError, created, failed, too_short, user_of, described, byte_at, seat_creator,
  create_fixed, with_password, with_title, parse_create,
}

-- A room that its creator leads from the only seat that is taken.
abbrev pub IsFresh : Player → Room → Type 0
IsFresh p r = IsSeated r × (r.users ≡ record (user_of p 1) { id = 1 } ∷ []) × (r.leader_id ≡ 1)

abbrev made : Creation → Room → Room
made (created r) other = r
made (failed e) other = other

created-injective : (r s : Room) → created r ≡ created s → r ≡ s
created-injective r s e = ap (λ c. made c r) e

failed-ne-created : {e : CreateError} {r : Room} → failed e ≢ created r
failed-ne-created q = cc

seat_creator_lem :
    (r : Room) (u : RoomUser)
    → r.users ≡ []
    → 0 < r.max_users
    → seat_creator r u ≡ created (record r { users = record u { id = 1 } ∷ []; leader_id = 1 })
unfolding seat_creator add_user highest_seat
seat_creator_lem r u e h = let room : leb r.max_users 0 ≡ false = ground arith in rw (e, room) refl

some_seats : (n : ℕ) → 0 < (if n == 0 then 16 else n)
some_seats n = ground arith

described_seats :
    (catalog : Catalog) (title password : String) (fixed : List ℕ)
    → 0 < (described catalog title password fixed).max_users
unfolding described
described_seats catalog title password fixed = some_seats (byte_at 2 fixed)

IsFresh-created :
    (p : Player) (room r : Room)
    → room.users ≡ []
    → 0 < room.max_users
    → seat_creator room (user_of p 1) ≡ created r
    → IsFresh p r
IsFresh-created p room r e h q =
    let fresh : Room = record room {
      users = record (user_of p 1) { id = 1 } ∷ [];
      leader_id = 1;
    } in
    let same : fresh ≡ r =
      created-injective fresh r (sym (seat_creator_lem room (user_of p 1) e h) ∙ q) in
    subst (IsFresh p) same (record { within = omega (arith, h); distinct = (tt, tt) }, refl, refl)

module _ (text : List ℕ → String) (catalog : Catalog) where
  short_fails :
      (title password fixed : List ℕ) (p : Player)
      → ltb (length fixed) 13 ≡ true
      → create_fixed text catalog title password fixed p ≡ failed (too_short (length fixed))
  unfolding create_fixed
  short_fails title password fixed p e = rw e refl

  long_seats :
      (title password fixed : List ℕ) (p : Player)
      → ltb (length fixed) 13 ≡ false
      → create_fixed text catalog title password fixed p
        ≡ seat_creator (described catalog (text title) (text password) fixed) (user_of p 1)
  unfolding create_fixed
  long_seats title password fixed p e = rw e refl

  create_fixed-IsFresh :
      (title password fixed : List ℕ) (p : Player) (r : Room)
      → create_fixed text catalog title password fixed p ≡ created r
      → IsFresh p r
  unfolding create_fixed described
  create_fixed-IsFresh title password fixed p r e = elim (Bool-cases (ltb (length fixed) 13)) [
    | inl short ↦ absurd (failed-ne-created (sym (short_fails title password fixed p short) ∙ e))
    | inr long ↦
        IsFresh-created p (described catalog (text title) (text password) fixed) r refl
          (described_seats catalog (text title) (text password) fixed)
          (sym (long_seats title password fixed p long) ∙ e)
  ]

  with_password-IsFresh :
      (password : Read (List ℕ)) (title body : List ℕ) (p : Player) (r : Room)
      → with_password text catalog password title body p ≡ created r
      → IsFresh p r
  with_password-IsFresh (malformed x) title body p r e = absurd (failed-ne-created e)
  with_password-IsFresh (read password next) title body p r e =
      create_fixed-IsFresh title password (drop next body) p r e

  with_title-IsFresh :
      (title : Read (List ℕ)) (body : List ℕ) (p : Player) (r : Room)
      → with_title text catalog title body p ≡ created r
      → IsFresh p r
  with_title-IsFresh (malformed x) body p r e = absurd (failed-ne-created e)
  with_title-IsFresh (read title next) body p r e =
      with_password-IsFresh (read_proud_string body next) title body p r e

  -- In a room that a request creates, whatever the bytes of the request are, its creator holds the only
  -- seat that is taken, with id 1, on the first team and as the leader, and the room has at least that seat.
  pub parse_create-IsFresh :
      (body : List ℕ) (p : Player) (r : Room)
      → parse_create text catalog body p ≡ created r
      → IsFresh p r
  unfolding parse_create
  parse_create-IsFresh body p r e = with_title-IsFresh (read_proud_string body 0) body p r e
