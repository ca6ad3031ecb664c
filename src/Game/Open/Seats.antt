-- ===== src/Game/Open/Seats.antt =====
-- The open rooms under what the handlers write to rooms and their registry.
use mathlib.Core.Logic.{◌≢◌}
use fear_online_server.Prelude.{
  ℕ, suc, ◌+◌, ◌≤◌, ◌<◌, ◌≡◌, refl, sym, ◌∙◌, ap, subst, Bool, true, false, Bool-cases, leb, ◌==◌,
  if◌then◌else◌, arith, List, [], ◌∷◌, ◌++◌, ◌-◌, ◌^◌, length, length-append, Option, none, some,
  Option-cases, inl, inr, remove_by, ◌%◌, ◌⊎◌,
}
use fear_online_server.Prelude.NatMap.{value_at, put, value_at-put, value_at-remove_key}
use fear_online_server.Rooms.Room.{Room, RoomUser, add_user, remove_user, highest_seat}
use fear_online_server.Rooms.Registry.{opened, open_room, open_loop, find_room, close_room}
use fear_online_server.Game.{Places}
use fear_online_server.Game.Seating.{
  write, stand, opened_place, left_places, create_place, sit, vacate,
}

-- A room that someone is in, and no more than it has seats.
abbrev pub IsManned : Room → Type 0
IsManned r = (0 < length r.users) × (length r.users ≤ r.max_users)

-- A handle in use whose room has a number and is manned.
abbrev pub LeadsTo : Places → ℕ → ℕ → Type 0
LeadsTo p n h = (h < p.fresh) × ((p.heap h).number ≡ n) × IsManned (p.heap h)

-- Every number that Find knows leads to a manned room of that number.
abbrev pub IsOpen : Places → Type 0
IsOpen p = (n h : ℕ) → find_room p.rooms n ≡ some h → LeadsTo p n h

-- A room that is changed without a change of its number, and stays manned where a number leads to it.
pub write-IsOpen :
    (p : Places) (h : ℕ) (r : Room)
    → IsOpen p
    → r.number ≡ (p.heap h).number
    → (IsManned (p.heap h) → IsManned r)
    → IsOpen (record p { heap = write p.heap h r })
write-IsOpen p h r ok same manned n k e = elim (Bool-cases (h == k)) [
  | inl q ↦
      let at : h ≡ k = ground arith in
      let (below, number, was) = ok n k e in
      rw q (
        below,
        same ∙ (ap (λ j. (p.heap j).number) at ∙ number),
        manned (subst (λ j. IsManned (p.heap j)) (sym at) was),
      )
  | inr q ↦ rw q (ok n k e)
]

none-ne-some : {A : Type 0} {a : A} → none ≢ some a
none-ne-some q = cc

abbrev room_or : Room → Option (RoomUser × Room) → Room
room_or r none = r
room_or r (some (v, s)) = s

abbrev seated_user : Room → RoomUser → RoomUser
seated_user r u = record u { id = (highest_seat 0 r.users + 1) % 2 ^ 32 }

add_user-full :
    (r : Room) (u : RoomUser) → leb r.max_users (length r.users) ≡ true → add_user r u ≡ none
unfolding add_user
add_user-full r u q = rw q refl

add_user-free :
    (r : Room) (u : RoomUser)
    → leb r.max_users (length r.users) ≡ false
    → add_user r u ≡ some (seated_user r u, record r { users = r.users ++ (seated_user r u ∷ []) })
unfolding add_user
add_user-free r u q = rw q refl

one_seated :
    (us : List RoomUser) (v : RoomUser) (n : ℕ)
    → leb n (length us) ≡ false
    → (0 < length (us ++ (v ∷ []))) × (length (us ++ (v ∷ [])) ≤ n)
one_seated us v n q = ground (arith, length-append us (v ∷ []))

add_user-IsManned :
    (r s : Room) (u v : RoomUser) → add_user r u ≡ some (v, s) → IsManned s × (s.number ≡ r.number)
add_user-IsManned r s u v e = elim (Bool-cases (leb r.max_users (length r.users))) [
  | inl q ↦ absurd (none-ne-some (sym (add_user-full r u q) ∙ e))
  | inr q ↦
      let same = ap (room_or r) (sym (add_user-free r u q) ∙ e) in
      subst (λ t. IsManned t × (t.number ≡ r.number)) same
        (one_seated r.users (seated_user r u) r.max_users q, refl)
]

pub sit-IsOpen :
    (x h : ℕ) (u v : RoomUser) (r : Room) (p : Places)
    → add_user (p.heap h) u ≡ some (v, r)
    → IsOpen p
    → IsOpen (sit x h (v, r) p)
unfolding sit stand
sit-IsOpen x h u v r p e ok =
    let (manned, same) = add_user-IsManned (p.heap h) r u v e in
    write-IsOpen p h r ok same (λ was. manned)

remove_by-length :
    (test : RoomUser → Bool) (us : List RoomUser) (u : RoomUser) (rest : List RoomUser)
    → remove_by test us ≡ some (u, rest)
    → suc (length rest) ≡ length us
remove_by-length test [] u rest e = absurd (cc)
remove_by-length test (x ∷ us) u rest e = elim (Option-cases (remove_by test us)) [
  | inl d ↦ ground (arith, d)
  | inr ((y, left), d) ↦ ground (arith, d, remove_by-length test us y left d)
]

still_manned :
    (us rest : List RoomUser) (n : ℕ)
    → suc (length rest) ≡ length us
    → (length rest == 0) ≡ false
    → length us ≤ n
    → (0 < length rest) × (length rest ≤ n)
still_manned us rest n size empty manned = ground arith

-- What a removal keeps, where the room is not empty then.
abbrev KeepsManned : Room → Option RoomUser × Bool × Room → Type 0
KeepsManned r (removed, empty, s) =
    (s.number ≡ r.number) × (empty ≡ false → IsManned r → IsManned s)

remove_user-IsManned : (r : Room) (id : ℕ) → KeepsManned r (remove_user r id)
unfolding remove_user
remove_user-IsManned r id = elim (Option-cases (remove_by (λ u. u.id == id) r.users)) [
  | inl d ↦ rw d (refl, λ empty manned. manned)
  | inr ((u, rest), d) ↦
      let size = remove_by-length (λ v. v.id == id) r.users u rest d in
      rw d (refl, λ empty manned. still_manned r.users rest r.max_users size empty manned.1)
]

number_elsewhere :
    (number n : ℕ) (room found : Option ℕ) (k : ℕ)
    → room ≡ (if number == n then none else found)
    → room ≡ some k
    → (number ≢ n) × (found ≡ some k)
number_elsewhere number n room found k closed e = ground (arith, closed, e)

-- A room that is closed is found by its number no more.
closed-IsOpen :
    (h : ℕ) (p : Places) (s : Room)
    → IsOpen p
    → s.number ≡ (p.heap h).number
    → IsOpen (record p { heap = write p.heap h s; rooms = close_room p.rooms s.number })
unfolding close_room find_room
closed-IsOpen h p s ok same n k e =
    let (elsewhere, found) =
      number_elsewhere s.number n (find_room (close_room p.rooms s.number) n) (find_room p.rooms n)
        k (value_at-remove_key s.number n p.rooms.rooms) e in
    let (below, number, manned) = ok n k found in
    elim (Bool-cases (h == k)) [
      | inl q ↦
          let at : h ≡ k = ground arith in
          absurd (elsewhere (same ∙ (ap (λ j. (p.heap j).number) at ∙ number)))
      | inr q ↦ rw q (below, number, manned)
    ]

vacated-IsOpen :
    (h : ℕ) (p : Places) (left : Option RoomUser × Bool × Room)
    → IsOpen p
    → KeepsManned (p.heap h) left
    → IsOpen ((left_places h p left).1)
vacated-IsOpen h p (removed, false, s) ok (same, kept) = write-IsOpen p h s ok same (kept refl)
vacated-IsOpen h p (removed, true, s) ok (same, kept) = closed-IsOpen h p s ok same

pub vacate-IsOpen : (h user : ℕ) (p : Places) → IsOpen p → IsOpen (vacate h user p).1
unfolding vacate
vacate-IsOpen h user p ok =
    let (same, kept) = remove_user-IsManned (p.heap h) user in
    vacated-IsOpen h p (remove_user (p.heap h) user) ok (same, kept)

abbrev places_or : Places → Option Places → Places
places_or p none = p
places_or p (some q) = q

number_there :
    (number n h : ℕ) (room found : Option ℕ) (k : ℕ)
    → room ≡ (if number == n then some h else found)
    → room ≡ some k
    → ((number ≡ n) × (h ≡ k)) ⊎ (found ≡ some k)
number_there number n h room found k opened e = ground (arith, opened, e)

-- A room on a handle that is not in use yet.
added-IsOpen :
    (p : Places) (r : Room) (last : ℕ)
    → IsManned r
    → IsOpen p
    → IsOpen (record p {
      heap = write p.heap p.fresh r;
      fresh = suc p.fresh;
      rooms = record { rooms = put r.number p.fresh p.rooms.rooms; last_room = last };
    })
unfolding find_room
added-IsOpen p r last manned ok n k e =
    elim (number_there r.number n p.fresh (value_at n (put r.number p.fresh p.rooms.rooms))
      (value_at n p.rooms.rooms) k (value_at-put r.number n p.fresh p.rooms.rooms) e) [
        | inl (number, at) ↦
            let here : (p.fresh == k) ≡ true = ground arith in
            rw here (omega (arith, at), number, manned)
        | inr found ↦
            let (below, number, was) = ok n k found in
            let elsewhere : (p.fresh == k) ≡ false = ground arith in
            rw elsewhere (omega (arith, below), number, was)
      ]

opened-IsOpen :
    (x : ℕ) (r : Room) (p q : Places) (free : Option ℕ)
    → IsManned r
    → opened_place x r (opened p.rooms p.fresh free) p ≡ some q
    → IsOpen p
    → IsOpen q
unfolding stand
opened-IsOpen x r p q none manned e ok = absurd (none-ne-some e)
opened-IsOpen x r p q (some n) manned e ok =
    subst IsOpen (ap (places_or p) e) (added-IsOpen p (record r { number = n }) n manned ok)

pub create_place-IsOpen :
    (x : ℕ) (r : Room) (p q : Places)
    → IsManned r
    → create_place x r p ≡ some q
    → IsOpen p
    → IsOpen q
unfolding create_place open_room
create_place-IsOpen x r p q manned e ok =
    opened-IsOpen x r p q (open_loop (2 ^ 16 - 1) p.rooms.rooms p.rooms.last_room) manned e ok
