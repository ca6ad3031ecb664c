-- ===== src/Services/Players/Purchase.antt =====
-- What a purchase takes and what it gives.
use fear_online_server.Prelude.{
  ℕ, ◌+◌, ◌^◌, ◌≤◌, ◌<◌, String, ◌≡◌, eq_iff, refl, arith, ap, Bool, List, if-intro, Option, none,
  some, Option-cases, inl, inr, ltb,
}
use fear_online_server.Prelude.NatMap.{value_at}
use fear_online_server.Models.Item.{Time, InventoryItem}
use fear_online_server.Models.Player.{
  Player, Wallet, wallet_none, wallet_cash, wallet_point, balance, debit, next_serial,
}
use fear_online_server.Catalog.{Catalog, GameItem}
use fear_online_server.Repositories.Exec.{ok}
use fear_online_server.Repositories.Memory.{Store, memory_players, commit_inventory}
use fear_online_server.Repositories.Table.{lookup, lookup-insert}
use fear_online_server.Services.Players.Grants.{
  store_price, add_to_inventory, rental_seconds, appended, changed_or_new, new_item,
}
use fear_online_server.Services.Players.Shop.{BuyResult, below_level, settle, sell, buy}

-- Both wallets are uint64.
abbrev pub IsFunded : Player → Type 0
IsFunded p = (p.point < 2 ^ 64) × (p.cash < 2 ^ 64)

store_price-none : (def : GameItem) → (store_price def).0 ≡ wallet_none → (store_price def).1 ≡ 0
unfolding store_price
store_price-none def e = ground arith

-- Nothing but the inventory differs.
abbrev pub SameRest : Player → InventoryItem × Bool × Player → Type 0
SameRest p (i, is_new, q) = q ≡ record p { inventory = q.inventory }

appended-SameRest : (p : Player) (i : InventoryItem) → SameRest p (appended p i)
appended-SameRest p i = ground arith

changed_or_new-SameRest :
    (p : Player) (i : InventoryItem) (o : Option (InventoryItem × List InventoryItem))
    → SameRest p (changed_or_new p i o)
changed_or_new-SameRest p i none = appended-SameRest p i
changed_or_new-SameRest p i (some (j, inv)) = refl

add_to_inventory-SameRest :
    (p : Player) (def : GameItem) (index : ℕ) (now : Time)
    → SameRest p (add_to_inventory p def index now)
unfolding add_to_inventory
add_to_inventory-SameRest p def index now =
    let i = new_item (next_serial p) def index now in
    if-intro (SameRest p) (ltb 0 (rental_seconds def.use_time)) _ _ (changed_or_new-SameRest p i _)
      (if-intro (SameRest p) def.is_merge _ _ (changed_or_new-SameRest p i _)
        (appended-SameRest p i))

debit-rest :
    (p q : Player) (w : Wallet) (price : ℕ)
    → q ≡ record p { inventory = q.inventory }
    → record (debit p w price) { inventory = q.inventory } ≡ debit q w price
unfolding debit
debit-rest p q wallet_none price e = ground arith
debit-rest p q wallet_point price e = ground arith
debit-rest p q wallet_cash price e = ground arith

-- What is charged comes out of one wallet.
debit-balance :
    (p q : Player) (w : Wallet) (price : ℕ)
    → IsFunded p
    → q ≡ record p { inventory = q.inventory }
    → price ≤ balance p w
    → (w ≡ wallet_none → price ≡ 0)
    → (balance (debit q w price) w + price ≡ balance p w)
      × ((debit q w price).point + (debit q w price).cash + price ≡ p.point + p.cash)
unfolding debit balance
debit-balance p q wallet_none price f e h n =
    ground (arith, ap (λ p. p.point) e, ap (λ p. p.cash) e)
debit-balance p q wallet_point price f e h n =
    ground (arith, ap (λ p. p.point) e, ap (λ p. p.cash) e)
debit-balance p q wallet_cash price f e h n =
    ground (arith, ap (λ p. p.point) e, ap (λ p. p.cash) e)

-- The end of Buy takes the price out of the wallet, and stores the account that it answers.
settle_lem :
    (s : Store) (p : Player) (w : Wallet) (price : ℕ) (a : InventoryItem × Bool × Player)
    (r : BuyResult)
    → IsFunded p
    → lookup p.steam_id s.players ≡ some p
    → SameRest p a
    → price ≤ balance p w
    → (w ≡ wallet_none → price ≡ 0)
    → (settle memory_players p.steam_id w price a s).0 ≡ ok r
    → (balance r.player r.wallet + r.price ≡ balance p r.wallet)
      × ((r.player.point + r.player.cash) + r.price ≡ p.point + p.cash)
      × (lookup p.steam_id (settle memory_players p.steam_id w price a s).1.players ≡ some r.player)
unfolding settle commit_inventory
settle_lem s p w price (i, is_new, q) r funded f rest h n e = ground (
  arith,
  eq_iff p.steam_id p.steam_id,
  lookup-insert p.steam_id p.steam_id (record (debit p w price) { inventory = q.inventory })
      s.players,
  debit-rest p q w price rest,
  debit-balance p q w price funded rest h n,
)

sell_lem :
    (s : Store) (p : Player) (is_sell is_low : Bool) (w : Wallet) (price : ℕ)
    (a : InventoryItem × Bool × Player) (r : BuyResult)
    → IsFunded p
    → lookup p.steam_id s.players ≡ some p
    → SameRest p a
    → (w ≡ wallet_none → price ≡ 0)
    → (sell memory_players p.steam_id p is_sell is_low (w, price) a s).0 ≡ ok r
    → (balance r.player r.wallet + r.price ≡ balance p r.wallet)
      × ((r.player.point + r.player.cash) + r.price ≡ p.point + p.cash)
      × (lookup p.steam_id
            (sell memory_players p.steam_id p is_sell is_low (w, price) a s).1.players
          ≡ some r.player)
unfolding sell
sell_lem s p is_sell is_low w price a r funded f rest n e =
    ground (arith, settle_lem s p w price a r funded f rest)

-- Where the account and the item are there, Buy goes on to its checks.
pub buy-sell :
    (c : Catalog) (s : Store) (id : String) (p : Player) (index : ℕ) (def : GameItem) (now : Time)
    → lookup id s.players ≡ some p
    → value_at index c.items ≡ some def
    → buy memory_players c id index now s
      ≡ sell memory_players id p def.is_sell
          (below_level p.level def.buy_level_limit)
          (store_price def)
          (add_to_inventory p def index now)
          s
unfolding buy
buy-sell c s id p index def now q d = rw (q, d) refl

-- A purchase that succeeds takes exactly the price from the wallet that is charged and nothing from the
-- other, and the stored account is the one that is answered.
pub buy_lem :
    (c : Catalog) (s : Store) (p : Player) (index : ℕ) (now : Time) (r : BuyResult)
    → IsFunded p
    → lookup p.steam_id s.players ≡ some p
    → (buy memory_players c p.steam_id index now s).0 ≡ ok r
    → (balance r.player r.wallet + r.price ≡ balance p r.wallet)
      × ((r.player.point + r.player.cash) + r.price ≡ p.point + p.cash)
      × (lookup p.steam_id (buy memory_players c p.steam_id index now s).1.players ≡ some r.player)
buy_lem c s p index now r funded q e = elim (Option-cases (value_at index c.items)) [
  | inl d ↦ absurd (unfold buy in ground (arith, q, d))
  | inr (def, d) ↦
      let (w, price) = store_price def in
      let step = buy-sell c s p.steam_id p index def now q d in
      rw step (
        sell_lem s p def.is_sell (below_level p.level def.buy_level_limit) w price
          (add_to_inventory p def index now) r funded q (add_to_inventory-SameRest p def index now)
          (store_price-none def) (rw step at e))
]
