-- ===== src/Catalog/Links.antt =====
-- What Load makes of the table of part links.
use fear_online_server.Prelude.{
  ℕ, ◌≡◌, refl, ap, ◌∙◌, String, Bool, true, false, ◌&&◌, ◌||◌, ◌==◌, arith, List, [], ◌∷◌, any_by,
  Option, none, some, Option-cases, inl, inr,
}
use fear_online_server.Prelude.NatMap.{value_at, put, value_at-put}
use fear_online_server.Catalog.{Catalog, accepts, parts_at, is_set}
use fear_online_server.Catalog.Rows.{Conversions, Row, u32}
use fear_online_server.Catalog.Load.{
  ◌>>=◌, empty_catalog, index_headers, each_row, each, load, add_item, add_map, add_reward,
  add_class, add_recipe, add_part_link, add_part, add_function,
}

-- The rows of a file below its headers.
abbrev rows_with : List (String × ℕ) → List (List String) → List Row
rows_with index [] = []
rows_with index (fields ∷ rows) = record { index = index; fields = fields } ∷ rows_with index rows

abbrev pub data_rows : Conversions → Option (List (List String)) → List Row
data_rows conv none = []
data_rows conv (some []) = []
data_rows conv (some (headers ∷ rows)) = rows_with (index_headers conv 0 headers []) rows

-- Whether a row links the part to the weapon.
abbrev pub links : Conversions → (weapon part : ℕ) → Row → Bool
links conv weapon part r = u32 conv r "WeaponIndex" == weapon && u32 conv r "PartIndex" == part

module _ (conv : Conversions) where
  accepts-add_part_link :
      (c : Catalog) (r : Row) (weapon part : ℕ)
      → accepts (add_part_link conv c r) weapon part
        ≡ (links conv weapon part r || accepts c weapon part)
  unfolding accepts add_part_link
  accepts-add_part_link c r weapon part =
      let w = u32 conv r "WeaponIndex" in
      let p = u32 conv r "PartIndex" in
      let parts = parts_at (value_at w c.parts_for) in
      ground (
        arith,
        value_at-put w weapon (put p true parts) c.parts_for,
        value_at-put p part true parts,
        ap (λ k. is_set (value_at part (parts_at (value_at k c.parts_for)))),
      )

  accepts-each_row :
      (index : List (String × ℕ)) (rows : List (List String)) (c : Catalog) (weapon part : ℕ)
      → accepts (each_row conv (add_part_link conv) index rows c) weapon part
        ≡ (any_by (links conv weapon part) (rows_with index rows) || accepts c weapon part)
  unfolding each_row
  accepts-each_row index [] c weapon part = refl
  accepts-each_row index (fields ∷ rows) c weapon part =
      let r : Row = record { index = index; fields = fields } in
      ground (
        arith,
        accepts-each_row index rows (add_part_link conv c r) weapon part,
        accepts-add_part_link c r weapon part,
      )

  -- A table that does not write the links leaves them.
  each_row-same :
      (f : Catalog → Row → Catalog)
      → ((c : Catalog) (r : Row) → (f c r).parts_for ≡ c.parts_for)
      → (index : List (String × ℕ)) (rows : List (List String)) (c : Catalog)
      → (each_row conv f index rows c).parts_for ≡ c.parts_for
  unfolding each_row
  each_row-same f same index [] c = refl
  each_row-same f same index (fields ∷ rows) c =
      let r : Row = record { index = index; fields = fields } in
      each_row-same f same index rows (f c r) ∙ same c r

  module _ (files : String → Option (List (List String))) where
    each-same :
        (name : String) (f : Catalog → Row → Catalog)
        → ((c : Catalog) (r : Row) → (f c r).parts_for ≡ c.parts_for)
        → (c d : Catalog) → each conv files name f c ≡ some d
        → d.parts_for ≡ c.parts_for
    unfolding each
    each-same name f same c d e = elim (Option-cases (files name)) [
      | inl q ↦ ground (arith, q)
      | inr ([], q) ↦ ground (arith, q)
      | inr (headers ∷ rows, q) ↦
          ground (arith, q, each_row-same f same (index_headers conv 0 headers []) rows c)
    ]

    accepts-each :
        (name : String) (c d : Catalog) (weapon part : ℕ)
        → each conv files name (add_part_link conv) c ≡ some d
        → accepts d weapon part
          ≡ (any_by (links conv weapon part) (data_rows conv (files name)) || accepts c weapon part)
    unfolding each
    accepts-each name c d weapon part e = elim (Option-cases (files name)) [
      | inl q ↦ ground (arith, q)
      | inr ([], q) ↦ ground (arith, q)
      | inr (headers ∷ rows, q) ↦ ground (
        arith,
        q,
        accepts-each_row (index_headers conv 0 headers []) rows c weapon part,
        ap (λ c. accepts c weapon part),
      )
    ]

    accepts-same :
        (c d : Catalog) (weapon part : ℕ)
        → d.parts_for ≡ c.parts_for
        → accepts d weapon part ≡ accepts c weapon part
    unfolding accepts
    accepts-same c d weapon part e =
        ap (λ t. is_set (value_at part (parts_at (value_at weapon t)))) e

some->>= :
    {A B : Type 0} (m : Option A) (f : A → Option B) (b : B)
    → (m >>= f) ≡ some b
    → (a : A) × (m ≡ some a) × (f a ≡ some b)
some->>= none f b e = absurd (cc)
some->>= (some a) f b e = (a, refl, e)

-- In a catalog that Load has read, a weapon takes a part exactly when some row of PartLinkTable.csv
-- links the two: nothing else of Load writes the links, and a weapon without a row takes nothing.
pub accepts-load :
    (conv : Conversions) (files : String → Option (List (List String))) (c : Catalog)
    (weapon part : ℕ)
    → load conv files ≡ some c
    → accepts c weapon part
      ≡ any_by (links conv weapon part) (data_rows conv (files "data/PartLinkTable.csv"))
unfolding load add_item add_map add_reward add_class add_recipe add_part add_function
accepts-load conv files c weapon part e =
    let (c1, e1, r1) =
      some->>= (each conv files "data/GameItem.csv" (add_item conv) empty_catalog) _ c e in
    let (c2, e2, r2) = some->>= (each conv files "data/MapInfo.csv" (add_map conv) c1) _ c r1 in
    let (c3, e3, r3) =
      some->>= (each conv files "data/RewardItem.csv" (add_reward conv) c2) _ c r2 in
    let (c4, e4, r4) = some->>= (each conv files "data/ClassInfo.csv" (add_class conv) c3) _ c r3 in
    let (c5, e5, r5) = some->>= (each conv files "data/Recipe.csv" (add_recipe conv) c4) _ c r4 in
    let (c6, e6, r6) =
      some->>= (each conv files "data/PartLinkTable.csv" (add_part_link conv) c5) _ c r5 in
    let (c7, e7, r7) =
      some->>= (each conv files "data/CustomPartItem.csv" (add_part conv) c6) _ c r6 in
    let keep = each-same conv files in
    let before : c5.parts_for ≡ [] =
      keep "data/Recipe.csv" (add_recipe conv) (λ c r. refl) c4 c5 e5
      ∙ keep "data/ClassInfo.csv" (add_class conv) (λ c r. refl) c3 c4 e4
      ∙ keep "data/RewardItem.csv" (add_reward conv) (λ c r. refl) c2 c3 e3
      ∙ keep "data/MapInfo.csv" (add_map conv) (λ c r. refl) c1 c2 e2
      ∙ keep "data/GameItem.csv" (add_item conv) (λ c r. refl) empty_catalog c1 e1 in
    let after : c.parts_for ≡ c6.parts_for =
      keep "data/FunctionItem.csv" (add_function conv) (λ c r. refl) c7 c r7
      ∙ keep "data/CustomPartItem.csv" (add_part conv) (λ c r. refl) c6 c7 e7 in
    ground (
      arith,
      accepts-same conv files c6 c weapon part after,
      accepts-each conv files "data/PartLinkTable.csv" c5 c6 weapon part e6,
      accepts-same conv files empty_catalog c5 weapon part before,
      nothing,
    )
  where
    nothing : accepts empty_catalog weapon part ≡ false
    nothing = unfold accepts in refl
