-- ===== src/Rooms/Registry/Open.antt =====
-- Open ends, and the number that it gives was free.
use fear_online_server.Prelude.{
  ℕ, zero, suc, ◌+◌, ◌-◌, ◌^◌, ◌≤◌, ◌<◌, ◌≡◌, refl, ap, ◌∙◌, Bool, true, false, Bool-cases, leb,
  ltb, ◌==◌, ◌&&◌, ◌||◌, if◌then◌else◌, arith, List, [], ◌∷◌, length, Option-cases, none, some, inl,
  inr,
}
use fear_online_server.Prelude.NatMap.{value_at, put, value_at-put}
use fear_online_server.Rooms.Registry.{
  RoomRegistry, next_number, taken, open_loop, open_room, find_room,
}

abbrev one_if : Bool → ℕ
one_if true = 1
one_if false = 0

-- How many of the next numbers are a given one, and how many are taken.
unfoldable hits : ℕ → ℕ → ℕ → ℕ
hits k zero last = 0
hits k (suc n) last = one_if (next_number last == k) + hits k n (next_number last)

unfoldable taken_ahead : List (ℕ × ℕ) → ℕ → ℕ → ℕ
taken_ahead rooms zero last = 0
taken_ahead rooms (suc n) last =
    one_if (taken (next_number last) rooms) + taken_ahead rooms n (next_number last)

-- Where the next numbers do not come around, none is met twice.
hits-bound :
    (k n last : ℕ)
    → last < 2 ^ 16
    → n < 2 ^ 16
    → hits k n last
      ≤ one_if ((ltb last k && leb k (last + n)) || (ltb 0 k && leb (k + 2 ^ 16) (last + n + 1)))
unfolding hits next_number
hits-bound k zero last h b = omega arith
hits-bound k (suc n) last h b = ground (arith, hits-bound k n (next_number last))

taken-cons :
    (n j h : ℕ) (rooms : List (ℕ × ℕ))
    → one_if (taken n ((j, h) ∷ rooms)) ≤ one_if (n == j) + one_if (taken n rooms)
unfolding taken
taken-cons n j h rooms = ground arith

ahead-cons :
    (n last j h : ℕ) (rooms : List (ℕ × ℕ))
    → taken_ahead ((j, h) ∷ rooms) n last ≤ hits j n last + taken_ahead rooms n last
unfolding taken_ahead hits
ahead-cons zero last j h rooms = omega arith
ahead-cons (suc n) last j h rooms =
    omega
      (arith, taken-cons (next_number last) j h rooms, ahead-cons n (next_number last) j h rooms)

ahead-nil : (n last : ℕ) → taken_ahead [] n last ≡ 0
unfolding taken_ahead taken
ahead-nil zero last = refl
ahead-nil (suc n) last = omega (arith, ahead-nil n (next_number last))

one_if-le : (b : Bool) → one_if b ≤ 1
one_if-le true = omega arith
one_if-le false = omega arith

-- A round is lost for each open room at most.
ahead-length :
    (rooms : List (ℕ × ℕ)) (n last : ℕ)
    → last < 2 ^ 16
    → n < 2 ^ 16
    → taken_ahead rooms n last ≤ length rooms
ahead-length [] n last h b = omega (arith, ahead-nil n last)
ahead-length ((j, handle) ∷ rooms) n last h b = omega (
  arith,
  ahead-cons n last j handle rooms,
  hits-bound j n last h b,
  one_if-le ((ltb last j && leb j (last + n)) || (ltb 0 j && leb (j + 2 ^ 16) (last + n + 1))),
  ahead-length rooms n last h b,
)

loop-taken :
    (n : ℕ) (rooms : List (ℕ × ℕ)) (last : ℕ)
    → taken (next_number last) rooms ≡ true
    → open_loop (suc n) rooms last ≡ open_loop n rooms (next_number last)
unfolding open_loop
loop-taken n rooms last used = rw (used, open_loop)

loop-free :
    (n : ℕ) (rooms : List (ℕ × ℕ)) (last : ℕ)
    → taken (next_number last) rooms ≡ false
    → open_loop (suc n) rooms last ≡ some (next_number last)
unfolding open_loop
loop-free n rooms last free = rw (free, open_loop)

free-none : (n : ℕ) (rooms : List (ℕ × ℕ)) → taken n rooms ≡ false → value_at n rooms ≡ none
unfolding taken
free-none n rooms free = elim (Option-cases (value_at n rooms)) [
  | inl q ↦ q
  | inr (h, q) ↦ absurd (ground (arith, q))
]

-- A loop that has more rounds than numbers are taken ahead of it finds one that is not.
open_loop_finds :
    (n : ℕ) (rooms : List (ℕ × ℕ)) (last : ℕ)
    → taken_ahead rooms n last < n
    → (k : ℕ) × (open_loop n rooms last ≡ some k) × (0 < k) × (k < 2 ^ 16) × (taken k rooms ≡ false)
unfolding taken_ahead
open_loop_finds zero rooms last h = absurd (omega arith)
open_loop_finds (suc n) rooms last h = elim (Bool-cases (taken (next_number last) rooms)) [
  | inl used ↦
      let (k, found, above, below, free) =
        open_loop_finds n rooms (next_number last) (omega (arith, h, ap one_if used)) in
      (k, loop-taken n rooms last used ∙ found, above, below, free)
  | inr free ↦ (
    next_number last,
    loop-free n rooms last free,
    unfold next_number in ground arith,
    unfold next_number in ground arith,
    free,
  )
]

-- While fewer than 65535 rooms are open, Open ends and gives a number that is neither 0 nor a room's; from
-- then on the number finds the new room, and every other number what it found before.
pub open_room_free :
    (r : RoomRegistry) (handle : ℕ)
    → length r.rooms < 2 ^ 16 - 1
    → r.last_room < 2 ^ 16
    → (n : ℕ) × (s : RoomRegistry) × (open_room r handle ≡ some (n, s))
      × (0 < n)
      × (n < 2 ^ 16)
      × (find_room r n ≡ none)
      × ((m : ℕ) → find_room s m ≡ (if n == m then some handle else find_room r m))
unfolding open_room find_room
open_room_free r handle h b =
    let (n, found, above, below, free) =
      open_loop_finds (2 ^ 16 - 1) r.rooms r.last_room
        (omega (arith, ahead-length r.rooms (2 ^ 16 - 1) r.last_room b (omega arith))) in
    (
      n,
      record { rooms = put n handle r.rooms; last_room = n },
      rw found refl,
      above,
      below,
      free-none n r.rooms free,
      λ m. value_at-put n m handle r.rooms,
    )
