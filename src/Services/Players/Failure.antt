-- ===== src/Services/Players/Failure.antt =====
-- What the calls of the player service leave behind when they fail.
use fear_online_server.Prelude.{
  ℕ, String, ◌≡◌, eq_iff, refl, arith, List, [], ◌∷◌, zero, suc, Bool, true, false, Bool-cases, ltb,
  ◌&&◌, ◌==◌, Option, none, some, Option-cases, inl, inr,
}
use fear_online_server.Prelude.Int.{ℤ}
use fear_online_server.Models.Item.{Time, InventoryItem}
use fear_online_server.Models.Player.{Player, item, Wallet, next_serial}
use fear_online_server.Models.Loadout.{Loadout, equip}
use fear_online_server.Catalog.{Catalog}
use fear_online_server.Repositories.Exec.{Error, Result, ok, err}
use fear_online_server.Repositories.Memory.{Store, memory_players, update_player, commit_inventory}
use fear_online_server.Repositories.Table.{lookup, lookup-insert}
use fear_online_server.Services.Players.{equip_item, detach_item, rename}
use fear_online_server.Prelude.NatMap.{value_at}
use fear_online_server.Services.Players.Grants.{store_price, add_to_inventory}
use fear_online_server.Services.Players.Purchase.{buy-sell}
use fear_online_server.Models.Player.Materials.{consume_materials}
use fear_online_server.Services.Players.Crafting.{craft-forge}
use fear_online_server.Services.Players.Shop.{
  forge, finish_craft, needs, attach_item, equip_all, change_weapons, sell, settle, below_level,
  buy, craft, spend_consumable,
}

-- The calls that write once at most.
pub data Call : Type 0 where
  equips : String → ℕ → Time → Call
  detaches : String → ℕ → ℕ → Call
  renames : String → String → Call
  attaches : String → ℕ → ℕ → Time → Call
  arms : String → List ℕ → Time → Call
  buys crafts : String → ℕ → Time → Call
  spends : String → ℤ → Call

abbrev failure : {A : Type 0} → Result A × Store → Option Error × Store
failure (ok a, s) = (none, s)
failure (err e, s) = (some e, s)

abbrev pub call_of : Catalog → Call → Store → Option Error × Store
call_of c (equips id serial now) s = failure (equip_item memory_players id serial now s)
call_of c (detaches id parent child) s = failure (detach_item memory_players id parent child s)
call_of c (renames id name) s = failure (rename memory_players id name s)
call_of c (attaches id parent child now) s =
    failure (attach_item memory_players c id parent child now s)
call_of c (arms id serials now) s = failure (change_weapons memory_players c id serials now s)
call_of c (buys id index now) s = failure (buy memory_players c id index now s)
call_of c (crafts id recipe now) s = failure (craft memory_players c id recipe now s)
call_of c (spends id function) s = failure (spend_consumable memory_players c id function s)

failure-same :
    {A : Type 0} (r : Result A × Store) (s : Store) (e : Error)
    → (r.0 ≡ err e → r.1 ≡ s)
    → (failure r).0 ≡ some e
    → (failure r).1 ≡ s
failure-same (ok a, t) s e f h = absurd (cc)
failure-same (err d, t) s e f h = f (ground arith)

sell-same :
    (id : String) (p : Player) (is_sell is_low : Bool) (w : Wallet) (price : ℕ)
    (a : InventoryItem × Bool × Player) (s : Store) (e : Error)
    → (sell memory_players id p is_sell is_low (w, price) a s).0 ≡ err e
    → (sell memory_players id p is_sell is_low (w, price) a s).1 ≡ s
unfolding sell settle commit_inventory
sell-same id p is_sell is_low w price (i, is_new, q) s e h = ground arith

buy-same :
    (c : Catalog) (id : String) (index : ℕ) (now : Time) (s : Store) (e : Error)
    → (buy memory_players c id index now s).0 ≡ err e
    → (buy memory_players c id index now s).1 ≡ s
buy-same c id index now s e h = elim (Option-cases (lookup id s.players)) [
  | inl q ↦ unfold buy in ground (arith, q)
  | inr (p, q) ↦ elim (Option-cases (value_at index c.items)) [
    | inl d ↦ unfold buy in ground (arith, q, d)
    | inr (def, d) ↦
        let (w, price) = store_price def in
        let step = buy-sell c s id p index def now q d in
        rw step (
          sell-same id p def.is_sell (below_level p.level def.buy_level_limit) w price
            (add_to_inventory p def index now) s e (rw step at h))
  ]
]

finish_craft-same :
    (id : String) (price : ℕ) (deleted : List ℕ) (updated : List InventoryItem) (left : Player)
    (output : InventoryItem) (s : Store) (e : Error)
    → (finish_craft memory_players id price deleted updated left output s).0 ≡ err e
    → (finish_craft memory_players id price deleted updated left output s).1 ≡ s
unfolding finish_craft commit_inventory
finish_craft-same id price deleted updated left output s e h = ground arith

forge-same :
    (id : String) (p : Player) (exist is_low : Bool) (price : ℕ)
    (consumed : Option (List ℕ × List InventoryItem × Player)) (output : ℕ → InventoryItem)
    (s : Store) (e : Error)
    → (forge memory_players id p exist is_low price consumed output s).0 ≡ err e
    → (forge memory_players id p exist is_low price consumed output s).1 ≡ s
unfolding forge
forge-same id p false is_low price consumed output s e h = refl
forge-same id p true true price consumed output s e h = refl
forge-same id p true false price none output s e h =
    elim (Bool-cases (ltb 0 price && ltb p.point price)) [
      | inl poor ↦ rw poor refl
      | inr rich ↦ rw rich refl
    ]
forge-same id p true false price (some (deleted, updated, left)) output s e h =
    elim (Bool-cases (ltb 0 price && ltb p.point price)) [
      | inl poor ↦ rw poor refl
      | inr rich ↦ elim (Bool-cases (next_serial left == 0)) [
        | inl full ↦ rw (rich, full) refl
        | inr free ↦
            rw (rich, free)
              (finish_craft-same id price deleted updated left (output (next_serial left)) s e
                (rw (rich, free) at h))
      ]
    ]

craft-same :
    (c : Catalog) (id : String) (recipe_id : ℕ) (now : Time) (s : Store) (e : Error)
    → (craft memory_players c id recipe_id now s).0 ≡ err e
    → (craft memory_players c id recipe_id now s).1 ≡ s
craft-same c id recipe_id now s e h = elim (Option-cases (lookup id s.players)) [
  | inl q ↦ unfold craft in ground (arith, q)
  | inr (p, q) ↦ elim (Option-cases (value_at recipe_id c.recipes)) [
    | inl d ↦ unfold craft in ground (arith, q, d)
    | inr (recipe, d) ↦
        let step = craft-forge c s id p recipe_id recipe now q d in
        rw step (
          forge-same id p recipe.exist (below_level p.level recipe.require_level) recipe.price_point
            (consume_materials p (needs recipe.materials [])) _ s e (rw step at h))
  ]
]

equip_all-same :
    (c : Catalog) (p : Player) (now : Time) (serials : List ℕ) (l : Loadout) (s : Store)
    → (equip_all memory_players c p now serials l s).1 ≡ s
unfolding equip_all
equip_all-same c p now [] l s = refl
equip_all-same c p now (zero ∷ serials) l s = equip_all-same c p now serials l s
equip_all-same c p now (suc n ∷ serials) l s = elim (Option-cases (item p (suc n))) [
  | inl q ↦ ground (arith, q)
  | inr (i, q) ↦ ground (arith, q, equip_all-same c p now serials (equip l i.item_type (suc n)) s)
]

-- A call that writes once at most and answers an error has not changed the in-memory stores.
pub call_unchanged :
    (c : Catalog) (call : Call) (s : Store) (e : Error)
    → (call_of c call s).0 ≡ some e
    → (call_of c call s).1 ≡ s
unfolding equip_item detach_item rename attach_item change_weapons spend_consumable update_player
    commit_inventory
call_unchanged c (equips id serial now) s e h = ground arith
call_unchanged c (detaches id parent child) s e h = ground arith
call_unchanged c (renames id name) s e h = elim (Option-cases (lookup id s.players)) [
  | inl q ↦ ground (arith, q)
  | inr (p, q) ↦
      ground (arith, q, eq_iff id id, lookup-insert id id (record p { name = name }) s.players)
]
call_unchanged c (attaches id parent child now) s e h = ground arith
call_unchanged c (arms id serials now) s e h = elim (Option-cases (lookup id s.players)) [
  | inl q ↦ ground (arith, q)
  | inr (p, q) ↦ ground (arith, q, equip_all-same c p now serials p.loadout s)
]
call_unchanged c (buys id index now) s e h =
    failure-same (buy memory_players c id index now s) s e (buy-same c id index now s e) h
call_unchanged c (crafts id recipe now) s e h =
    failure-same (craft memory_players c id recipe now s) s e (craft-same c id recipe now s e) h
call_unchanged c (spends id function) s e h = ground arith
