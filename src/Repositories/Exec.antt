-- ===== src/Repositories/Exec.antt =====
-- Calls that may fail. What was written before the failure stays written, so the state comes back
-- beside the error too.
use fear_online_server.Prelude.{ℕ, Bool, true, false, Option, none, some}
use fear_online_server.Models.Player.{Player, FriendRequest}

-- The sentinel errors of the repositories and the services; `backend` is any other error of a store.
-- A pending request comes back with the target and the request, as the source returns them.
pub data Error : Type 0 where
  backend : ℕ → Error
  already_exists clan_exists : Error
  player_not_found item_not_owned item_expired part_not_compatible : Error
  item_unknown item_not_for_sale level_too_low insufficient_funds inventory_full : Error
  recipe_unknown material_missing consumable_missing : Error
  friend_not_found already_friends friend_self request_not_found friend_list_missing : Error
  request_pending : Player → FriendRequest → Error
  clan_not_found already_member already_in_clan : Error
  not_in_clan not_allowed member_not_found applicant_not_found clan_full : Error
  no_application invalid_rank master_must_transfer mark_taken : Error

pub data Result {ℓ} (A : Type ℓ) : Type ℓ where
  ok : A → Result A
  err : Error → Result A

abbrev pub Exec : Type 0 → Type 0 → Type 0
Exec S A = S → Result A × S

module _ {S : Type 0} where
  abbrev pub pure : {A : Type 0} → A → Exec S A
  pure a s = (ok a, s)

  abbrev pub raise : {A : Type 0} → Error → Exec S A
  raise e s = (err e, s)

  abbrev then_run : {A B : Type 0} → Result A → (A → Exec S B) → Exec S B
  then_run (ok a) f s = f a s
  then_run (err e) f s = (err e, s)

  infixl 5 ◌>>=◌ ◌>>◌
  abbrev pub ◌>>=◌ : {A B : Type 0} → Exec S A → (A → Exec S B) → Exec S B
  ◌>>=◌ m f s = then_run (m s).0 f (m s).1

  abbrev pub ◌>>◌ : {B : Type 0} → Exec S (Unit {0}) → Exec S B → Exec S B
  m >> n = m >>= λ _. n

  -- `if !ok { return …, e }` after a lookup.
  abbrev pub or_raise : {A : Type 0} → Option A → Error → Exec S A
  or_raise none e = raise e
  or_raise (some a) e = pure a

  -- `if test { return …, e }`.
  abbrev pub raise_if : Bool → Error → Exec S (Unit {0})
  raise_if true e = raise e
  raise_if false e = pure tt
