-- ===== src/Models/Player/Serial.antt =====
-- NextSerial: the least serial that is free, found whenever there is one.
use native.Mathlib.Decide.{ℕ_discrete}
use fear_online_server.Prelude.{
  ℕ, zero, suc, ◌+◌, ◌≤◌, ◌<◌, ◌≡◌, refl, sym, subst, ◌∙◌, inl, inr, true, false, not, ◌==◌,
  Bool-cases, if◌then◌else◌, arith, List, [], ◌∷◌, length, filter_by,
}
use fear_online_server.Models.Item.{InventoryItem}
use fear_online_server.Models.Player.{Player, serial_used, serial_loop, next_serial}

without : ℕ → List InventoryItem → List InventoryItem
without s = filter_by (λ i. not (i.serial == s))

serial_used-without :
    (s t : ℕ) (inv : List InventoryItem)
    → serial_used (without s inv) t ≡ (if s == t then false else serial_used inv t)
unfolding without serial_used
serial_used-without s t [] = ground arith
serial_used-without s t (i ∷ inv) = ground (arith, serial_used-without s t inv)

length-without-le : (s : ℕ) (inv : List InventoryItem) → length (without s inv) ≤ length inv
unfolding without
length-without-le s [] = omega arith
length-without-le s (i ∷ inv) = ground (arith, length-without-le s inv)

length-without :
    (s : ℕ) (inv : List InventoryItem)
    → serial_used inv s ≡ true
    → length (without s inv) < length inv
unfolding without serial_used
length-without s [] h = absurd (cc)
length-without s (i ∷ inv) h = ground (arith, length-without s inv, length-without-le s inv)

serial_loop-used :
    (rounds s : ℕ) (inv : List InventoryItem)
    → serial_used inv s ≡ true
    → serial_loop (suc rounds) s inv ≡ serial_loop rounds (s + 1) inv
unfolding serial_loop
serial_loop-used rounds s inv h = rw (h, serial_loop)

serial_loop-free :
    (rounds s : ℕ) (inv : List InventoryItem)
    → serial_used inv s ≡ false
    → serial_loop (suc rounds) s inv ≡ s
unfolding serial_loop
serial_loop-free rounds s inv h = rw (h, serial_loop)

-- The loop never looks at a serial below the one that it has reached.
serial_loop-without :
    (rounds s t : ℕ) (inv : List InventoryItem)
    → t < s
    → serial_loop rounds s (without t inv) ≡ serial_loop rounds s inv
serial_loop-without zero s t inv h = unfold serial_loop in refl
serial_loop-without (suc rounds) s t inv h = elim (Bool-cases (serial_used inv s)) [
  | inl used ↦
      serial_loop-used rounds s (without t inv) (ground (arith, serial_used-without t s inv))
      ∙ serial_loop-without rounds (s + 1) t inv (omega arith)
      ∙ sym (serial_loop-used rounds s inv used)
  | inr free ↦
      serial_loop-free rounds s (without t inv) (ground (arith, serial_used-without t s inv))
      ∙ sym (serial_loop-free rounds s inv free)
]

-- With more rounds than items the loop ends at a free serial.
serial_loop_finds :
    (rounds s : ℕ) (inv : List InventoryItem)
    → length inv < rounds
    → 0 < s
    → 0 < serial_loop rounds s inv
serial_loop_finds zero s inv h k = absurd (omega arith)
serial_loop_finds (suc rounds) s inv h k = elim (Bool-cases (serial_used inv s)) [
  | inl used ↦ ground (
    arith,
    serial_loop-used rounds s inv used,
    serial_loop-without rounds (s + 1) s inv (omega arith),
    length-without s inv used,
    serial_loop_finds rounds (s + 1) (without s inv),
  )
  | inr free ↦ ground (arith, serial_loop-free rounds s inv free)
]

-- What the loop returns, unless it is 0, is free, lies within its rounds, and is the least such.
serial_loop_least :
    (rounds s : ℕ) (inv : List InventoryItem)
    → 0 < serial_loop rounds s inv
    → (s ≤ serial_loop rounds s inv)
      × (serial_loop rounds s inv < s + rounds)
      × (serial_used inv (serial_loop rounds s inv) ≡ false)
      × ((t : ℕ) → s ≤ t → t < serial_loop rounds s inv → serial_used inv t ≡ true)
serial_loop_least zero s inv h = absurd (omega (arith, nothing))
  where
    nothing : serial_loop 0 s inv ≡ 0
    nothing = unfold serial_loop in refl
serial_loop_least (suc rounds) s inv h = elim (Bool-cases (serial_used inv s)) [
  | inl used ↦
      let step = serial_loop-used rounds s inv used in
      let (from, upto, free, least) = serial_loop_least rounds (s + 1) inv (rw step at h) in
      rw step (
        omega arith,
        omega arith,
        free,
        λ t a b. elim (ℕ_discrete s t) [
          | yes e ↦ subst (λ t. serial_used inv t ≡ true) e used
          | no n ↦ least t (omega arith) b
        ],
      )
  | inr free ↦
      rw (serial_loop-free rounds s inv free)
        (omega arith, omega arith, free, λ t a b. absurd (omega arith))
]

-- With fewer than 65534 items NextSerial returns the least free serial, and it is not 0.
pub next_serial_lem :
    (p : Player)
    → length p.inventory < 0xFFFE
    → (0 < next_serial p)
      × (next_serial p < 0xFFFF)
      × (serial_used p.inventory (next_serial p) ≡ false)
      × ((t : ℕ) → 0 < t → t < next_serial p → serial_used p.inventory t ≡ true)
unfolding next_serial
next_serial_lem p h =
    let found = serial_loop_finds 0xFFFE 1 p.inventory h (omega arith) in
    let (from, upto, free, least) = serial_loop_least 0xFFFE 1 p.inventory found in
    (found, omega arith, free, least)
