-- ===== src/Rooms/Room/Seats.antt =====
-- The seats of a room, over every change of the room.
use mathlib.Core.Logic.{◌≢◌}
use fear_online_server.Prelude.{
  ℕ, suc, ◌+◌, ◌-◌, ◌%◌, ◌^◌, ◌≤◌, ◌<◌, ◌≡◌, refl, sym, Bool, ltb, ◌==◌, if◌then◌else◌, arith, List,
  [], ◌∷◌, ◌++◌, length, length-append, All, All-append, some, Option-cases, inl, inr, remove_by,
  update_by, find_by,
}
use fear_online_server.Rooms.Room.{
  Room, RoomUser, highest_seat, add_user, remove_user, toggle_ready, toggled, scored, score_all,
  record_death, finish_round, next_round,
}

abbrev pub OtherSeats : ℕ → List RoomUser → Type 0
OtherSeats id us = All (λ u. u.id ≢ id) us

abbrev pub DistinctSeats : List RoomUser → Type 0
DistinctSeats [] = Unit {0}
DistinctSeats (u ∷ us) = OtherSeats u.id us × DistinctSeats us

-- No more users than seats, and no two users under one id.
pub record IsSeated (r : Room) : Type 0 where
  pub within : length r.users ≤ r.max_users
  pub distinct : DistinctSeats r.users

highest_seat-le :
    (highest : ℕ) (us : List RoomUser)
    → (highest ≤ highest_seat highest us)
      × ((id : ℕ) → highest_seat highest us < id → OtherSeats id us)
unfolding highest_seat
highest_seat-le highest [] = (omega arith, λ id h. tt)
highest_seat-le highest (u ∷ us) =
    let rest = highest_seat-le (if ltb highest u.id then u.id else highest) us in
    (ground (arith, rest.0), λ id h. (ground (arith, rest.0), rest.1 id h))

append-DistinctSeats :
    (us : List RoomUser) (u : RoomUser)
    → DistinctSeats us
    → OtherSeats u.id us
    → DistinctSeats (us ++ (u ∷ []))
append-DistinctSeats [] u d h = (tt, tt)
append-DistinctSeats (x ∷ us) u d h = (
  All-append (λ y. y.id ≢ x.id) us (u ∷ []) d.0 (λ e. h.0 (sym e), tt),
  append-DistinctSeats us u d.1 h.1,
)

remove-OtherSeats :
    (id : ℕ) (test : RoomUser → Bool) (us : List RoomUser) (u : RoomUser) (rest : List RoomUser)
    → OtherSeats id us
    → remove_by test us ≡ some (u, rest)
    → OtherSeats id rest
remove-OtherSeats id test [] u rest h e = absurd (cc)
remove-OtherSeats id test (x ∷ us) u rest h e = elim (Option-cases (remove_by test us)) [
  | inl d ↦ ground (arith, d)
  | inr ((y, left), d) ↦ ground (arith, d, remove-OtherSeats id test us y left h.1 d)
]

remove-DistinctSeats :
    (test : RoomUser → Bool) (us : List RoomUser) (u : RoomUser) (rest : List RoomUser)
    → DistinctSeats us
    → remove_by test us ≡ some (u, rest)
    → DistinctSeats rest × (suc (length rest) ≡ length us)
remove-DistinctSeats test [] u rest h e = absurd (cc)
remove-DistinctSeats test (x ∷ us) u rest h e = elim (Option-cases (remove_by test us)) [
  | inl d ↦ ground (arith, d)
  | inr ((y, left), d) ↦ ground (
    arith,
    d,
    remove-DistinctSeats test us y left h.1 d,
    remove-OtherSeats x.id test us y left h.0 d,
  )
]

-- A change that keeps the ids.
toggle-OtherSeats :
    (id other : ℕ) (us : List RoomUser)
    → OtherSeats other us
    → OtherSeats other (update_by (λ u. u.id == id) toggled us)
toggle-OtherSeats id other [] h = tt
toggle-OtherSeats id other (u ∷ us) h = ground (arith, toggle-OtherSeats id other us h.1)

toggle-DistinctSeats :
    (id : ℕ) (us : List RoomUser)
    → DistinctSeats us
    → DistinctSeats (update_by (λ u. u.id == id) toggled us)
      × (length (update_by (λ u. u.id == id) toggled us) ≡ length us)
toggle-DistinctSeats id [] h = (tt, refl)
toggle-DistinctSeats id (u ∷ us) h =
    ground (arith, toggle-DistinctSeats id us h.1, toggle-OtherSeats id u.id us h.0)

scored-id : (k v a : ℕ) (u : RoomUser) → (scored k v a u).id ≡ u.id
unfolding scored
scored-id k v a u = ground arith

score-OtherSeats :
    (k v a other : ℕ) (us : List RoomUser)
    → OtherSeats other us
    → OtherSeats other (score_all k v a us)
unfolding score_all
score-OtherSeats k v a other [] h = tt
score-OtherSeats k v a other (u ∷ us) h =
    ground (arith, scored-id k v a u, score-OtherSeats k v a other us h.1)

score-DistinctSeats :
    (k v a : ℕ) (us : List RoomUser)
    → DistinctSeats us
    → DistinctSeats (score_all k v a us) × (length (score_all k v a us) ≡ length us)
unfolding score_all
score-DistinctSeats k v a [] h = (tt, refl)
score-DistinctSeats k v a (u ∷ us) h = ground (
  arith,
  scored-id k v a u,
  score-DistinctSeats k v a us h.1,
  score-OtherSeats k v a u.id us h.0,
  score-OtherSeats k v a (scored k v a u).id us,
)

-- No seat has the largest uint32 yet.
abbrev pub HasSeatRoom : Room → Type 0
HasSeatRoom r = highest_seat 0 r.users < 2 ^ 32 - 1

-- The changes of a room, in any order.
infix 40 ◌⟶◌ ◌⟶*◌
pub data ◌⟶◌ : Room → Room → Type 0 where
  joins : (r s : Room) (u v : RoomUser) → add_user r u ≡ some (v, s) → r ⟶ s
  leaves : (r : Room) (id : ℕ) → r ⟶ (remove_user r id).2
  toggles : (r : Room) (id : ℕ) → r ⟶ (toggle_ready r id).2
  dies : (r : Room) (killer victim assist : ℕ) → r ⟶ record_death r killer victim assist
  starts : (r : Room) → r ⟶ (next_round r).1
  finishes : (r : Room) → r ⟶ (finish_round r).2

pub data ◌⟶*◌ (r : Room) : Room → Type 0 where
  here : r ⟶* r
  next : {s t : Room} → r ⟶* s → s ⟶ t → r ⟶* t

step-IsSeated : {r s : Room} → r ⟶ s → HasSeatRoom r → IsSeated r → IsSeated s
unfolding add_user remove_user toggle_ready record_death next_round finish_round
step-IsSeated (joins r s u v e) room h =
    let seat = (highest_seat-le 0 r.users).1 (highest_seat 0 r.users + 1) (omega arith) in
    let seated : RoomUser = record u { id = (highest_seat 0 r.users + 1) % 2 ^ 32 } in
    let same : (highest_seat 0 r.users + 1) % 2 ^ 32 ≡ highest_seat 0 r.users + 1 = omega arith in
    ground (
      arith,
      h.within,
      length-append r.users (seated ∷ []),
      append-DistinctSeats r.users seated h.distinct (rw same seat),
    )
step-IsSeated (leaves r id) room h = elim (Option-cases (remove_by (λ u. u.id == id) r.users)) [
  | inl d ↦ rw d h
  | inr ((u, rest), d) ↦
      let (distinct, size) = remove-DistinctSeats (λ u. u.id == id) r.users u rest h.distinct d in
      rw d (record { within = omega (arith, h.within, size); distinct = distinct })
]
step-IsSeated (toggles r id) room h =
    let (distinct, size) = toggle-DistinctSeats id r.users h.distinct in
    elim (Option-cases (find_by (λ u. u.id == id) r.users)) [
      | inl d ↦ rw d h
      | inr (u, d) ↦ rw d (record { within = omega (arith, h.within, size); distinct = distinct })
    ]
step-IsSeated (dies r k v a) room h =
    let (distinct, size) = score-DistinctSeats k v a r.users h.distinct in
    record { within = omega (arith, h.within, size); distinct = distinct }
step-IsSeated (starts r) room h = record { within = h.within; distinct = h.distinct }
step-IsSeated (finishes r) room h = ground (arith, h.within, h.distinct)

-- In every room on the way, the ids leave room for one more.
abbrev pub KeepsRoom : {r s : Room} → r ⟶* s → Type 0
KeepsRoom here = Unit {0}
KeepsRoom (next {s} {t} steps step) = KeepsRoom steps × HasSeatRoom s

-- However a room is changed, by joining, leaving, getting ready, deaths and rounds in any order, it never
-- has more users than seats, and no two users get one id. The ids of the rooms on the way stay below
-- the largest uint32.
pub steps-IsSeated : {r s : Room} (steps : r ⟶* s) → KeepsRoom steps → IsSeated r → IsSeated s
steps-IsSeated here room h = h
steps-IsSeated (next steps step) room h = step-IsSeated step room.1 (steps-IsSeated steps room.0 h)
