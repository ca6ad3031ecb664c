-- ===== src/Match.antt =====
-- game_session.go and game_equip.go: the tickets of a match, the sessions in it, and the equipment that a
-- user carries into it. Sessions and rooms are handles; each method holds its lock throughout.
pub mod Tickets
mod Runs
use fear_online_server.Prelude.{
  ℕ, suc, ◌+◌, ◌-◌, ◌%◌, ◌^◌, Bool, true, false, not, ◌&&◌, leb, ◌==◌, if◌then◌else◌, List, [], ◌∷◌,
  ◌++◌, length, replicate, Option, none, some, any_by, filter_by,
}
use fear_online_server.Prelude.NatMap.{value_at, put, remove_key}
use fear_online_server.Models.Loadout.{EquippedItem, Loadout}
use fear_online_server.Models.Attachments.{
  AttachedItem, Attachments, slot_custom_part_first, slot_custom_part_last,
}
use fear_online_server.Models.Player.{Player}
use fear_online_server.Rooms.Room.{RoomUser}
use fear_online_server.Lobby.Rows.{append_words, index_by_serial, or_zero}

pub record MatchTickets : Type 0 where
  pub next : ℕ
  pub by_seat : List ((ℕ × ℕ) × ℕ)

abbrev pub new_match_tickets : MatchTickets
new_match_tickets = record { next = 0; by_seat = [] }

-- A Go map whose keys are a ticket and a user.
abbrev pub same_seat : ℕ × ℕ → ℕ × ℕ → Bool
same_seat (t, u) (t', u') = t == t' && u == u'

unfoldable pub seat_at : ℕ × ℕ → List ((ℕ × ℕ) × ℕ) → Option ℕ
seat_at seat [] = none
seat_at seat ((s, room) ∷ rest) = if same_seat s seat then some room else seat_at seat rest

unfoldable pub put_seat : ℕ × ℕ → ℕ → List ((ℕ × ℕ) × ℕ) → List ((ℕ × ℕ) × ℕ)
put_seat seat room [] = (seat, room) ∷ []
put_seat seat room ((s, r) ∷ rest) =
    if same_seat s seat then (s, room) ∷ rest else (s, r) ∷ put_seat seat room rest

unfoldable pub issue_ticket : MatchTickets → (room user : ℕ) → ℕ × MatchTickets
unfolding put_seat
issue_ticket t room user =
    let ticket = (t.next + 1) % 2 ^ 16 in
    (ticket, record { next = ticket; by_seat = put_seat (ticket, user) room t.by_seat })

unfoldable pub redeem_ticket : MatchTickets → (ticket user : ℕ) → Option ℕ
unfolding seat_at
redeem_ticket t ticket user = seat_at (ticket, user) t.by_seat

-- `loaded` is a set of sessions.
pub record MatchSessions : Type 0 where
  pub by_room : List (ℕ × List ℕ)
  pub loaded : List ℕ

abbrev pub new_match_sessions : MatchSessions
new_match_sessions = record { by_room = []; loaded = [] }

abbrev pub members_at : Option (List ℕ) → List ℕ
members_at none = []
members_at (some members) = members

abbrev pub has_loaded : ℕ → List ℕ → Bool
has_loaded session loaded = any_by (λ x. x == session) loaded

unfoldable pub in_match : MatchSessions → ℕ → List ℕ
in_match m room = members_at (value_at room m.by_room)

unfoldable pub join_match : MatchSessions → (room session : ℕ) → MatchSessions
unfolding in_match
join_match m room session = record m {
  by_room = put room (in_match m room ++ (session ∷ [])) m.by_room;
}

-- The loop of markLoaded.
unfoldable pub all_loaded : List ℕ → List ℕ → Bool
all_loaded loaded [] = true
all_loaded loaded (x ∷ members) = if has_loaded x loaded then all_loaded loaded members else false

-- Whether the match is complete, and the state.
unfoldable pub mark_loaded : MatchSessions → (room session : ℕ) → Bool × MatchSessions
unfolding all_loaded in_match
mark_loaded m room session =
    let loaded = if has_loaded session m.loaded then m.loaded else session ∷ m.loaded in
    (all_loaded loaded (in_match m room), record m { loaded = loaded })

unfoldable pub leave_match : MatchSessions → (room session : ℕ) → MatchSessions
unfolding in_match
leave_match m room session =
    let rest = filter_by (λ x. not (x == session)) (in_match m room) in
    record {
      by_room = if length rest == 0 then remove_key room m.by_room else put room rest m.by_room;
      loaded = filter_by (λ x. not (x == session)) m.loaded;
    }

-- The index of a user from `index` on; 1 where there is none.
unfoldable pub seat_from : ℕ → List RoomUser → ℕ → ℕ
seat_from index [] id = 1
seat_from index (u ∷ users) id =
    if u.id == id then (index + 1) % 2 ^ 8 else seat_from (suc index) users id

unfoldable pub seat_index : List RoomUser → ℕ → ℕ
unfolding seat_from
seat_index users id = seat_from 0 users id

-- inventory.go.
abbrev slot_weapon_first : ℕ
slot_weapon_first = 0x15

abbrev slot_weapon_last : ℕ
slot_weapon_last = 0x19

abbrev slot_perk_first : ℕ
slot_perk_first = 0x51

abbrev slot_perk_last : ℕ
slot_perk_last = 0x53

-- The arrays as lists of their length.
pub record GameUserEquip : Type 0 where
  pub user_index : ℕ
  pub weapon : List ℕ
  pub custom : List ℕ
  pub perk : List ℕ
  pub unkn : List ℕ

unfoldable pub equip_row : GameUserEquip → List ℕ
unfolding append_words
equip_row e =
    append_words
      (append_words (append_words (append_words (e.user_index ∷ []) e.weapon) e.custom) e.perk)
      e.unkn

-- `array[n] = v`, with n below the length.
unfoldable pub set_nth : ℕ → ℕ → List ℕ → List ℕ
set_nth n v [] = []
set_nth n v (x ∷ xs) = if n == 0 then v ∷ xs else x ∷ set_nth (n - 1) v xs

unfoldable pub carried_weapons : List (ℕ × ℕ) → Loadout → List ℕ → List ℕ
unfolding set_nth
carried_weapons indices [] weapon = weapon
carried_weapons indices (e ∷ loadout) weapon = carried_weapons indices loadout (
    if leb slot_weapon_first e.slot && leb e.slot slot_weapon_last
    then set_nth (e.slot - slot_weapon_first) (or_zero (value_at e.serial indices)) weapon
    else weapon)

unfoldable pub carried_parts : List (ℕ × ℕ) → Attachments → (custom perk : List ℕ) → List ℕ × List ℕ
unfolding set_nth
carried_parts indices [] custom perk = (custom, perk)
carried_parts indices (m ∷ mounts) custom perk =
    let index = or_zero (value_at m.child_serial indices) in
    let is_custom = leb slot_custom_part_first m.slot && leb m.slot slot_custom_part_last in
    let is_perk = leb slot_perk_first m.slot && leb m.slot slot_perk_last in
    carried_parts indices mounts
      (if is_custom then set_nth (m.slot - slot_custom_part_first) index custom else custom)
      (if not is_custom && is_perk then set_nth (m.slot - slot_perk_first) index perk else perk)

unfoldable pub build_user_equip : ℕ → Player → GameUserEquip
unfolding index_by_serial carried_weapons carried_parts
build_user_equip index player =
    let indices = index_by_serial player.inventory [] in
    let (custom, perk) = carried_parts indices player.attachments (replicate 6 0) (replicate 3 0) in
    record {
      user_index = index;
      weapon = carried_weapons indices player.loadout (replicate 5 0);
      custom = custom;
      perk = perk;
      unkn = replicate 5 0;
    }
