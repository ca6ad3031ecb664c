-- ===== src/Services/Players/Needed.antt =====
-- What a recipe needs of an item, added up over its materials, and the map that Craft collects of it.
use fear_online_server.Prelude.{
  ℕ, ◌+◌, ◌%◌, ◌^◌, ◌<◌, ◌≡◌, refl, ◌∙◌, arith, ap, ◌==◌, Bool-cases, if◌then◌else◌, List, [], ◌∷◌,
  inl, inr,
}
use fear_online_server.Prelude.NatMap.{put}
use fear_online_server.Prelude.Int.{ℤ, add_int, to_bits64, from_bits64}
use fear_online_server.Models.Player.Materials.{Need, count_of, positive}
use fear_online_server.Catalog.{Recipe, RecipeMaterial}
use fear_online_server.Services.Players.Shop.{needs}

-- The counts that a recipe lists of an item, each by its 64 bits, added up.
abbrev listed : ℕ → List RecipeMaterial → ℕ
listed index [] = 0
listed index (m ∷ ms) = (if m.item_index == index then to_bits64 m.count else 0) + listed index ms

-- What a recipe needs of an item: the sum, as an int, of all the counts that it lists of it, and nothing
-- where the sum is negative.
abbrev pub needed : ℕ → Recipe → ℕ
needed index recipe = positive (from_bits64 (listed index recipe.materials % 2 ^ 64))

count_of-put :
    (need : Need) (j index : ℕ) (c : ℤ)
    → count_of (put j c need) index ≡ (if j == index then c else count_of need index)
unfolding count_of
count_of-put [] j index c = refl
count_of-put ((k, d) ∷ need) j index c = ground (arith, count_of-put need j index c)

to_bits64-from_bits64 : (b : ℕ) → b < 2 ^ 64 → to_bits64 (from_bits64 b) ≡ b
to_bits64-from_bits64 b h = ground arith

sum_mod : (a b c : ℕ) → ((a + b) % 2 ^ 64 + c) % 2 ^ 64 ≡ (a + (b + c)) % 2 ^ 64
sum_mod a b c = omega arith

-- One round of the loop: the count of the material is added, and no other count changes.
count_of-put_added :
    (need : Need) (j index b : ℕ) (c : ℤ)
    → b < 2 ^ 64
    → count_of need index ≡ from_bits64 b
    → count_of (put j (add_int (count_of need j) c) need) index
      ≡ from_bits64 ((b + (if j == index then to_bits64 c else 0)) % 2 ^ 64)
count_of-put_added need j index b c h e = elim (Bool-cases (j == index)) [
  | inl same ↦
      let k : j ≡ index = ground arith in
      rw
        (
          count_of-put need j index (add_int (count_of need j) c),
          same,
          k,
          e,
          to_bits64-from_bits64 b h,
        )
        refl
  | inr other ↦
      rw (count_of-put need j index (add_int (count_of need j) c), other, e)
        (ap from_bits64 (omega arith))
]

-- The loop adds to what it has counted before.
count_of-needs_from :
    (index b : ℕ) (ms : List RecipeMaterial) (need : Need)
    → b < 2 ^ 64
    → count_of need index ≡ from_bits64 b
    → count_of (needs ms need) index ≡ from_bits64 ((b + listed index ms) % 2 ^ 64)
unfolding needs
count_of-needs_from index b [] need h e = e ∙ ap from_bits64 (omega arith)
count_of-needs_from index b (m ∷ ms) need h e =
    let share = if m.item_index == index then to_bits64 m.count else 0 in
    count_of-needs_from index ((b + share) % 2 ^ 64) ms
      (put m.item_index (add_int (count_of need m.item_index) m.count) need) (omega arith)
      (count_of-put_added need m.item_index index b m.count h e)
    ∙ ap from_bits64 (sum_mod b share (listed index ms))

-- The count that Craft collects of an item is the sum of all that the materials list of it.
pub count_of-needs :
    (index : ℕ) (ms : List RecipeMaterial)
    → count_of (needs ms []) index ≡ from_bits64 (listed index ms % 2 ^ 64)
unfolding count_of
count_of-needs index ms =
    count_of-needs_from index 0 ms [] (omega arith) refl ∙ ap from_bits64 (omega arith)
