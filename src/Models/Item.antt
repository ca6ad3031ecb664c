-- ===== src/Models/Item.antt =====
-- server/internal/models/inventory.go: owned items and their expiry.
-- A time.Time is the count of nanoseconds since Go's zero time, so `IsZero` is a test for 0.
use fear_online_server.Prelude.{
  ℕ, ◌-◌, ◌/◌, ◌%◌, ◌^◌, min, Bool, not, ◌&&◌, ltb, leb, ◌==◌, if◌then◌else◌,
}

abbrev pub Time : Type 0
Time = ℕ

abbrev pub second : ℕ
second = 1000000000

-- The largest time.Duration, at which `Sub` saturates.
abbrev max_duration : ℕ
max_duration = 2 ^ 63 - 1

abbrev pub slot_character_atc : ℕ
slot_character_atc = 0x0B

abbrev pub slot_character_tf : ℕ
slot_character_tf = 0x0C

pub record InventoryItem : Type 0 where
  pub serial : ℕ
  pub item_index : ℕ
  pub value : ℕ
  pub state : ℕ
  pub item_type : ℕ
  pub instance_aux : ℕ
  pub expires_at : Time

-- Go's zero value.
abbrev pub no_item : InventoryItem
no_item = record {
  serial = 0;
  item_index = 0;
  value = 0;
  state = 0;
  item_type = 0;
  instance_aux = 0;
  expires_at = 0;
}

unfoldable pub is_rental : InventoryItem → Bool
is_rental i = not (i.expires_at == 0)

unfoldable pub is_expired : InventoryItem → Time → Bool
unfolding is_rental
is_expired i now = is_rental i && not (ltb now i.expires_at)

-- The seconds left of a rental, as a uint32; the value of an item that is owned for good.
unfoldable pub wire_value : InventoryItem → Time → ℕ
unfolding is_rental
wire_value i now =
    if not (is_rental i)
    then i.value
    else if leb i.expires_at now
    then 0
    else min (i.expires_at - now) max_duration / second % 2 ^ 32
