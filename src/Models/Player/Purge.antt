-- ===== src/Models/Player/Purge.antt =====
-- PurgeExpired: what goes, what stays, and that nothing left refers to what went.
use fear_online_server.Prelude.{
  ℕ, ◌≡◌, refl, Bool, true, false, not, ◌&&◌, arith, List, [], ◌∷◌, map, length, All, filter_by,
}
use fear_online_server.Models.Item.{Time, InventoryItem, is_expired}
use fear_online_server.Models.Loadout.{Loadout}
use fear_online_server.Models.Attachments.{Attachments}
use fear_online_server.Models.Player.{Player, mem_serial, serial_used, purge_expired}

-- Every serial that the loadout or the attachments name belongs to an item of the inventory.
abbrev pub LoadoutOwned : List InventoryItem → Loadout → Type 0
LoadoutOwned inv l = All (λ e. serial_used inv e.serial ≡ true) l

abbrev pub AttachmentsOwned : List InventoryItem → Attachments → Type 0
AttachmentsOwned inv a =
    All (λ m. (serial_used inv m.child_serial ≡ true) × (serial_used inv m.parent_serial ≡ true)) a

pub record IsOwned (p : Player) : Type 0 where
  pub loadout_owned : LoadoutOwned p.inventory p.loadout
  pub attachments_owned : AttachmentsOwned p.inventory p.attachments

abbrev kept : Time → List InventoryItem → List InventoryItem
kept now = filter_by (λ i. not (is_expired i now))

abbrev removed : Time → List InventoryItem → List ℕ
removed now inv = map (λ i. i.serial) (filter_by (λ i. is_expired i now) inv)

abbrev gone : Time → List InventoryItem → ℕ → Bool
gone now inv s = mem_serial s (removed now inv)

-- A serial that is not gone is carried by as many items as before.
serial_used-kept :
    (now s : ℕ) (inv : List InventoryItem)
    → gone now inv s ≡ false
    → serial_used (kept now inv) s ≡ serial_used inv s
unfolding mem_serial serial_used
serial_used-kept now s [] h = refl
serial_used-kept now s (i ∷ inv) h = ground (arith, serial_used-kept now s inv)

module _ (now : Time) (inv : List InventoryItem) where
  loadout-kept :
      (l : Loadout)
      → LoadoutOwned inv l
      → LoadoutOwned (kept now inv) (filter_by (λ e. not (gone now inv e.serial)) l)
  loadout-kept [] h = tt
  loadout-kept (e ∷ l) h = ground (arith, serial_used-kept now e.serial inv, loadout-kept l h.1)

  attachments-kept :
      (a : Attachments)
      → AttachmentsOwned inv a
      → AttachmentsOwned (kept now inv) (
          filter_by
            (λ m. not (gone now inv m.child_serial) && not (gone now inv m.parent_serial))
            a)
  attachments-kept [] h = tt
  attachments-kept (m ∷ a) h = ground (
    arith,
    serial_used-kept now m.child_serial inv,
    serial_used-kept now m.parent_serial inv,
    attachments-kept a h.1,
  )

-- PurgeExpired keeps every reference of the loadout and of the attachments to an owned item.
pub purge_expired-IsOwned : (p : Player) (now : Time) → IsOwned p → IsOwned (purge_expired p now).1
unfolding purge_expired
purge_expired-IsOwned p now h = ground (
  arith,
  loadout-kept now p.inventory p.loadout h.loadout_owned,
  attachments-kept now p.inventory p.attachments h.attachments_owned,
)

nothing_expired :
    (now : Time) (inv : List InventoryItem) → length (removed now inv) ≡ 0 → inv ≡ kept now inv
nothing_expired now [] h = refl
nothing_expired now (i ∷ inv) h = ground (arith, nothing_expired now inv)

-- PurgeExpired keeps exactly the items that have not expired, returns the serials of the others, and
-- changes nothing else of the account than the inventory, the attachments and the loadout.
pub purge_expired_lem :
    (p : Player) (now : Time)
    → let (gone, q) = purge_expired p now in
      (q.inventory ≡ filter_by (λ i. not (is_expired i now)) p.inventory)
      × (gone ≡ map (λ i. i.serial) (filter_by (λ i. is_expired i now) p.inventory))
      × (record q { inventory = p.inventory; attachments = p.attachments; loadout = p.loadout } ≡ p)
unfolding purge_expired
purge_expired_lem p now = ground (arith, nothing_expired now p.inventory)
