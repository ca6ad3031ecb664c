-- ===== src/Models/Attachments.antt =====
-- server/internal/models/inventory.go: what is mounted on what.
use fear_online_server.Prelude.{
  ℕ, ◌≡◌, Bool, true, false, not, ◌&&◌, ◌||◌, leb, ◌==◌, if◌then◌else◌, List, [], ◌∷◌, ◌++◌, Option,
  some, find_by, filter_by, any_by, arith,
}

pub record AttachedItem : Type 0 where
  pub parent_serial : ℕ
  pub child_serial : ℕ
  pub slot : ℕ

abbrev pub Attachments : Type 0
Attachments = List AttachedItem

abbrev pub slot_custom_part_first : ℕ
slot_custom_part_first = 0x3D

abbrev pub slot_custom_part_last : ℕ
slot_custom_part_last = 0x42

unfoldable pub is_custom_slot : ℕ → Bool
is_custom_slot slot = leb slot_custom_part_first slot && leb slot slot_custom_part_last

unfoldable pub attach : Attachments → (parent child slot : ℕ) → Attachments
attach a parent child slot =
    filter_by (λ m. not (m.parent_serial == parent) || not (m.slot == slot)) a
    ++ (record { parent_serial = parent; child_serial = child; slot = slot } ∷ [])

unfoldable pub detach : Attachments → (parent child : ℕ) → Attachments
detach a parent child =
    filter_by (λ m. not (m.parent_serial == parent) || not (m.child_serial == child)) a

-- `IsCustomSlot(mounted.Slot) == custom`.
unfoldable pub filter : Attachments → Bool → Attachments
filter a custom =
    filter_by (λ m. if custom then is_custom_slot m.slot else not (is_custom_slot m.slot)) a

unfoldable pub custom_parts : Attachments → Attachments
unfolding filter
custom_parts a = filter a true

unfoldable pub gear_and_perks : Attachments → Attachments
unfolding filter
gear_and_perks a = filter a false

-- What is mounted in a slot of a parent.
unfoldable pub mounted : (parent slot : ℕ) → Attachments → Option AttachedItem
mounted parent slot a = find_by (λ m. m.parent_serial == parent && m.slot == slot) a

-- A slot of a parent shows the part that was mounted last in it, and every other slot of every
-- parent what it showed before.
pub mounted-attach :
    (a : Attachments) (parent child slot parent' slot' : ℕ)
    → mounted parent' slot' (attach a parent child slot) ≡ (
        if parent' == parent && slot' == slot
        then some (record { parent_serial = parent; child_serial = child; slot = slot })
        else mounted parent' slot' a)
unfolding mounted attach
mounted-attach [] parent child slot parent' slot' = ground arith
mounted-attach (m ∷ a) parent child slot parent' slot' =
    ground (arith, mounted-attach a parent child slot parent' slot')

-- Whether `child` is mounted somewhere on `parent`.
unfoldable pub is_mounted : (parent child : ℕ) → Attachments → Bool
is_mounted parent child a = any_by (λ m. m.parent_serial == parent && m.child_serial == child) a

-- After a detach the part is mounted nowhere on the parent, and every other pair is as before.
pub is_mounted-detach :
    (a : Attachments) (parent child parent' child' : ℕ)
    → is_mounted parent' child' (detach a parent child)
      ≡ (if parent' == parent && child' == child then false else is_mounted parent' child' a)
unfolding is_mounted detach
is_mounted-detach [] parent child parent' child' = ground arith
is_mounted-detach (m ∷ a) parent child parent' child' =
    ground (arith, is_mounted-detach a parent child parent' child')
