-- ===== src/Lobby/Members.antt =====
-- clan_member.go: the roster of a clan on the wire, and its counts. `runes` is `[]rune(s)`.
pub mod Counts
use fear_online_server.Prelude.{
  ℕ, ◌+◌, ◌-◌, ◌%◌, ◌^◌, String, Bool, ◌&&◌, ltb, leb, ◌==◌, ◌=ₛ◌, if◌then◌else◌, List, [], ◌∷◌,
  ◌++◌, length,
}
use fear_online_server.Prelude.Int.{ℤ, pos, negsuc, from_bits32}
use fear_online_server.Models.Clan.{
  Clan, ClanMember, ClanRecord, clan_rank_manager, clan_rank_member, clan_rank_associate,
  default_clan_member_capacity, capacity,
}
use fear_online_server.Models.Records.{Records, PvPRecord}
use fear_online_server.Models.Player.{Player}
use fear_online_server.Wire.Varint.{encode_var_int}
use fear_online_server.Wire.Bytes.{append_uint16}
use fear_online_server.Wire.Text.{write_proud_string}
use fear_online_server.Rooms.Create.{level_byte}
use fear_online_server.Rooms.Payloads.{clamp_byte, bool_byte}
use fear_online_server.Lobby.Rows.{append_words}

pub record ClanMemberPresence : Type 0 where
  pub channel : ℕ
  pub lobby : ℕ
  pub room : ℕ
  pub online : Bool
  pub in_game : Bool

pub record ClanMemberRecordWire : Type 0 where
  pub win : ℕ
  pub lose : ℕ
  pub draw : ℕ
  pub kill : ℕ
  pub death : ℕ
  pub extra : ℕ

pub record ClanMemberWire : Type 0 where
  pub member_id : ℕ
  pub name : String
  pub level : ℕ
  pub pvp : ClanMemberRecordWire
  pub clan_record : ClanMemberRecordWire
  pub channel : ℕ
  pub lobby : ℕ
  pub room : ℕ
  pub position : ℕ
  pub online : Bool
  pub in_game : Bool

abbrev non_negative : ℤ → ℕ
non_negative (pos n) = n
non_negative (negsuc n) = 0

-- clan.go; an int32 is given by its bits.
unfoldable pub non_negative_uint32 : ℕ → ℕ
non_negative_uint32 value = non_negative (from_bits32 value)

-- The draws of an account whose record does not count them; the subtractions are those of uint32.
unfoldable pub draws : PvPRecord → ℕ
draws r =
    if r.draw == 0 && leb ((r.win + r.lose) % 2 ^ 32) r.games
    then (r.games + 2 ^ 32 - r.win + 2 ^ 32 - r.lose) % 2 ^ 32
    else r.draw

unfoldable pub make_clan_member_wire : ClanMember → Player → ClanMemberPresence → ClanMemberWire
unfolding draws non_negative_uint32 level_byte
make_clan_member_wire member player presence =
    let pvp = player.records.pvp in
    record {
      member_id = member.member_id;
      name = if member.name =ₛ "" then player.name else member.name;
      level = level_byte player;
      pvp = record {
        win = pvp.win;
        lose = pvp.lose;
        draw = draws pvp;
        kill = pvp.kill;
        death = pvp.death;
        extra = pvp.headshot;
      };
      clan_record = record {
        win = non_negative_uint32 member.records.win;
        lose = non_negative_uint32 member.records.lose;
        draw = non_negative_uint32 member.records.draw;
        kill = non_negative_uint32 member.records.kill;
        death = non_negative_uint32 member.records.death;
        extra = 0;
      };
      channel = presence.channel;
      lobby = presence.lobby;
      room = presence.room;
      position = member.rank;
      online = presence.online;
      in_game = presence.in_game;
    }

unfoldable pub append_clan_member_record : List ℕ → ClanMemberRecordWire → List ℕ
append_clan_member_record dst r =
    append_words dst (r.win ∷ r.lose ∷ r.draw ∷ r.kill ∷ r.death ∷ r.extra ∷ [])

module _ (runes : String → List ℕ) where
  unfoldable pub append_clan_member : List ℕ → ClanMemberWire → List ℕ
  unfolding append_clan_member_record
  append_clan_member dst m =
      let named = write_proud_string (append_uint16 dst m.member_id) (runes m.name) in
      let fought =
        append_clan_member_record (append_clan_member_record (named ++ (m.level ∷ [])) m.pvp)
          m.clan_record in
      append_uint16 (fought ++ (m.channel ∷ m.lobby ∷ [])) m.room
      ++ (m.position ∷ bool_byte m.online ∷ bool_byte m.in_game ∷ [])

  unfoldable pub append_clan_members : List ℕ → List ClanMemberWire → List ℕ
  unfolding append_clan_member
  append_clan_members body [] = body
  append_clan_members body (m ∷ ms) = append_clan_members (append_clan_member body m) ms

  unfoldable pub clan_member_list : List ClanMemberWire → List ℕ
  unfolding append_clan_members encode_var_int
  clan_member_list ms = append_clan_members (encode_var_int (pos (length ms))) ms

pub record ClanMemberCounts : Type 0 where
  pub current_total : ℕ
  pub managers : ℕ
  pub members : ℕ
  pub associates : ℕ
  pub room_for : ℕ

abbrev pub increment_byte : ℕ → ℕ
increment_byte value = if value == 0xFF then value else value + 1

-- How many members have a rank, counted up from a number.
unfoldable pub ranked : (rank : ℕ) → ℕ → List ClanMember → ℕ
ranked rank n [] = n
ranked rank n (m ∷ ms) = ranked rank (if m.rank == rank then increment_byte n else n) ms

unfoldable pub make_clan_member_counts : Clan → ClanMemberCounts
unfolding ranked capacity
make_clan_member_counts clan =
    let total = clamp_byte (pos (length clan.members)) in
    record {
      current_total = total;
      managers = ranked clan_rank_manager 0 clan.members;
      members = ranked clan_rank_member 0 clan.members;
      associates = ranked clan_rank_associate 0 clan.members;
      room_for = if ltb (capacity clan) total then total else capacity clan;
    }

unfoldable pub counts_row : ClanMemberCounts → List ℕ
counts_row c = c.current_total ∷ c.managers ∷ c.members ∷ c.associates ∷ c.room_for ∷ []
