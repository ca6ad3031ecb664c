-- ===== src/Services/Players/Granted/Ends.antt =====
-- When a rental ends, as a sum of nanoseconds that does not wrap.
use fear_online_server.Prelude.{ℕ, ◌<◌, ◌≡◌, refl, ltb, ◌==◌, if◌then◌else◌, arith, ◌+◌, ◌*◌, ◌^◌}
use fear_online_server.Prelude.Int.{ℤ, pos, negsuc}
use fear_online_server.Models.Item.{Time, InventoryItem, second}
use fear_online_server.Models.Player.Materials.{positive}
use fear_online_server.Catalog.{GameItem}
use fear_online_server.Services.Players.Grants.{rental_seconds, add_seconds, expiry_for, extended}

-- The seconds that an item is rented for, and 0 for an item that is kept.
abbrev pub rented_for : GameItem → ℕ
rented_for def = positive def.use_time

pub positive-rental_seconds : (t : ℤ) → positive t ≡ rental_seconds t
positive-rental_seconds (pos n) = refl
positive-rental_seconds (negsuc n) = refl

-- Fewer than 2^63 nanoseconds do not wrap.
add_seconds_lem : (t : Time) (n : ℕ) → n * second < 2 ^ 63 → add_seconds t n ≡ t + n * second
unfolding add_seconds
add_seconds_lem t n h = ground arith

pub extended_lem :
    (def : GameItem) (now : Time) (old : InventoryItem)
    → rented_for def * second < 2 ^ 63
    → extended def now old ≡ record old {
      expires_at =
          (if ltb old.expires_at now then now else old.expires_at) + rented_for def * second;
    }
unfolding extended
extended_lem def now old h =
    rw
      (
        ← positive-rental_seconds def.use_time,
        add_seconds_lem (if ltb old.expires_at now then now else old.expires_at) (rented_for def) h,
      )
      refl

pub expiry_for_lem :
    (def : GameItem) (now : Time)
    → rented_for def * second < 2 ^ 63
    → expiry_for def now ≡ (if rented_for def == 0 then 0 else now + rented_for def * second)
unfolding expiry_for
expiry_for_lem def now h =
    rw (← positive-rental_seconds def.use_time, add_seconds_lem now (rented_for def) h) refl
