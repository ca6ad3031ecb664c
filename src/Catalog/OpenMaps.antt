-- ===== src/Catalog/OpenMaps.antt =====
-- The maps that the lobby advertises.
use fear_online_server.Prelude.{
  ℕ, ◌≤◌, ◌≡◌, refl, Bool, ◌&&◌, arith, List, [], ◌∷◌, map, All, filter_by, any_by,
}
use fear_online_server.Catalog.{Catalog, MapInfo, is_installed, insert_map, sort_maps, open_maps}

-- By rising MapIndex.
abbrev pub IsSorted : List MapInfo → Type 0
IsSorted [] = Unit {0}
IsSorted (m ∷ ms) = All (λ x. m.map_index ≤ x.map_index) ms × IsSorted ms

All-insert_map :
    (n : ℕ) (m : MapInfo) (ms : List MapInfo)
    → n ≤ m.map_index
    → All (λ x. n ≤ x.map_index) ms
    → All (λ x. n ≤ x.map_index) (insert_map m ms)
unfolding insert_map
All-insert_map n m [] h k = (h, tt)
All-insert_map n m (x ∷ xs) h k = ground (arith, All-insert_map n m xs h k.1)

All-above :
    (a b : ℕ) (ms : List MapInfo)
    → a ≤ b
    → All (λ x. b ≤ x.map_index) ms
    → All (λ x. a ≤ x.map_index) ms
All-above a b [] h k = tt
All-above a b (x ∷ ms) h k = (omega (arith, k.0), All-above a b ms h k.1)

insert_map-IsSorted : (m : MapInfo) (ms : List MapInfo) → IsSorted ms → IsSorted (insert_map m ms)
unfolding insert_map
insert_map-IsSorted m [] h = (tt, tt)
insert_map-IsSorted m (x ∷ xs) h = ground (
  arith,
  insert_map-IsSorted m xs h.1,
  All-insert_map x.map_index m xs,
  All-above m.map_index x.map_index xs,
)

sort_maps-IsSorted : (ms : List MapInfo) → IsSorted (sort_maps ms)
unfolding sort_maps
sort_maps-IsSorted [] = tt
sort_maps-IsSorted (m ∷ ms) = insert_map-IsSorted m (sort_maps ms) (sort_maps-IsSorted ms)

any-insert_map :
    (test : MapInfo → Bool) (m : MapInfo) (ms : List MapInfo)
    → any_by test (insert_map m ms) ≡ any_by test (m ∷ ms)
unfolding insert_map
any-insert_map test m [] = refl
any-insert_map test m (x ∷ xs) = ground (arith, any-insert_map test m xs)

any-sort_maps :
    (test : MapInfo → Bool) (ms : List MapInfo) → any_by test (sort_maps ms) ≡ any_by test ms
unfolding sort_maps
any-sort_maps test [] = refl
any-sort_maps test (m ∷ ms) =
    ground (arith, any-insert_map test m (sort_maps ms), any-sort_maps test ms)

any-filter_by :
    (test keep : MapInfo → Bool) (ms : List MapInfo)
    → any_by test (filter_by keep ms) ≡ any_by (λ m. keep m && test m) ms
any-filter_by test keep [] = refl
any-filter_by test keep (m ∷ ms) = ground (arith, any-filter_by test keep ms)

-- OpenMaps lists the maps by rising MapIndex, and a map with any given property is among them exactly
-- when an installed map of the catalog has it.
pub open_maps_lem :
    (c : Catalog) (test : MapInfo → Bool)
    → IsSorted (open_maps c)
      × (any_by test (open_maps c)
          ≡ any_by (λ m. is_installed m.map_name && test m) (map (λ e. e.1) c.maps))
unfolding open_maps
open_maps_lem c test =
    let installed = filter_by (λ m. is_installed m.map_name) (map (λ e. e.1) c.maps) in
    (
      sort_maps-IsSorted installed,
      ground (
        arith,
        any-sort_maps test installed,
        any-filter_by test (λ m. is_installed m.map_name) (map (λ e. e.1) c.maps),
      ),
    )
