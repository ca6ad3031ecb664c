-- ===== src/Lobby/Clans.antt =====
-- clan.go and clan_request.go: the rows that tell of a clan and of those who apply to it. The checksum, the
-- calendar and the functions on strings are parameters.
use fear_online_server.Prelude.{
  ℕ, ◌+◌, ◌*◌, ◌%◌, ◌^◌, String, not, ◌&&◌, ltb, ◌==◌, ◌=ₛ◌, if◌then◌else◌, List, [], ◌∷◌, ◌++◌,
  length, Option, none, some, find_by,
}
use fear_online_server.Prelude.Int.{ℤ, pos, negsuc, from_bits32}
use fear_online_server.Models.Item.{Time, second}
use fear_online_server.Models.Clan.{Clan, ClanMember, ClanApplicant}
use fear_online_server.Models.Player.{Player}
use fear_online_server.Repositories.Table.{lookup}
use fear_online_server.Wire.Varint.{encode_var_int}
use fear_online_server.Wire.Bytes.{append_uint16, append_uint32, append_uint64}
use fear_online_server.Wire.Text.{write_proud_string}
use fear_online_server.Rooms.Payloads.{append_clan_mark, clamp_byte}
use fear_online_server.Lobby.Rows.{append_words}
use fear_online_server.Lobby.Social.{account_or_zero}
use fear_online_server.Lobby.Members.{
  non_negative_uint32, append_clan_member_record, make_clan_member_counts, counts_row,
}

unfoldable pub clan_level : Clan → ℕ
clan_level clan = if clan.level == 0 then 1 else clan.level

abbrev name_or : Option ClanMember → String → String
name_or none other = other
name_or (some m) other = m.name

-- The name of the master, of a member without a rank, or the master's account.
unfoldable pub clan_master_name : Clan → String
clan_master_name clan =
    name_or (find_by (λ m. (m.steam_id =ₛ clan.master) && not (m.name =ₛ "")) clan.members)
      (name_or (find_by (λ m. m.rank == 0 && not (m.name =ₛ "")) clan.members) clan.master)

-- The Unix epoch.
abbrev epoch : Time
epoch = 62135596800 * second

-- A component of a mark within `bits`.
abbrev within_bits : ℕ → ℤ → ℕ
within_bits bits (negsuc n) = 0
within_bits bits (pos n) = if ltb bits n then bits else n

-- The three fields do not overlap, so their disjunction is their sum.
unfoldable pub pack_clan_mark : Clan → ℕ
pack_clan_mark clan =
    within_bits 0xFFFF (from_bits32 clan.mark.first)
    + within_bits 0xFF (from_bits32 clan.mark.second) * 2 ^ 16
    + within_bits 0xFF (from_bits32 clan.mark.third) * 2 ^ 24

module _ (runes : String → List ℕ) (date : Time → ℕ × ℕ × ℕ) where
  abbrev append_day : List ℕ → ℕ × ℕ × ℕ → List ℕ
  append_day dst (year, month, day) =
      append_uint16 dst (year % 2 ^ 16) ++ (month % 2 ^ 8 ∷ day % 2 ^ 8 ∷ [])

  unfoldable pub append_clan_request : List ℕ → ClanApplicant → Player → List ℕ
  unfolding append_clan_member_record
  append_clan_request dst applicant player =
      let pvp = player.records.pvp in
      let named =
        write_proud_string (append_uint16 dst applicant.applicant_id) (runes applicant.name)
        ++ (clamp_byte (pos applicant.level) ∷ []) in
      append_day
        (append_clan_member_record named (record {
          win = pvp.win;
          lose = pvp.lose;
          draw = pvp.draw;
          kill = pvp.kill;
          death = pvp.death;
          extra = pvp.headshot;
        }))
        (date applicant.applied_at)

  unfoldable pub append_clan_requests :
      List ℕ → List ClanApplicant → List (String × Player) → List ℕ
  unfolding append_clan_request
  append_clan_requests body [] accounts = body
  append_clan_requests body (a ∷ applicants) accounts =
      append_clan_requests
        (append_clan_request body a (account_or_zero (lookup a.steam_id accounts))) applicants
        accounts

  unfoldable pub clan_request_list : List ClanApplicant → List (String × Player) → List ℕ
  unfolding append_clan_requests encode_var_int
  clan_request_list applicants accounts =
      append_clan_requests (encode_var_int (pos (length applicants))) applicants accounts

  unfoldable pub notify_user_clan_info_row : (user_index : ℕ) → Clan → List ℕ
  unfolding append_clan_mark
  notify_user_clan_info_row user_index clan =
      append_clan_mark (write_proud_string (append_uint16 [] user_index) (runes clan.name)) clan

  -- The CRC-32, and the functions on strings.
  module _ (crc32 : String → ℕ) (to_lower trim_space : String → String) where
    unfoldable pub clan_wire_id : String → ℕ
    clan_wire_id name = let id = crc32 (to_lower (trim_space name)) in if id == 0 then 1 else id

    unfoldable pub append_request_clan_info : List ℕ → Clan → List ℕ
    unfolding clan_wire_id pack_clan_mark
    append_request_clan_info dst clan =
        append_uint32
          (append_uint32 (write_proud_string dst (runes clan.name)) (clan_wire_id clan.name))
          (pack_clan_mark clan)

    unfoldable pub append_clan_info : List ℕ → Clan → List ℕ
    unfolding clan_wire_id clan_master_name clan_level non_negative_uint32 append_words
        append_clan_mark make_clan_member_counts counts_row
    append_clan_info dst clan =
        let records = clan.records in
        let identified = append_uint32 dst (clan_wire_id clan.name) in
        let named =
          write_proud_string (write_proud_string identified (runes clan.name))
            (runes (clan_master_name clan)) in
        let scored = append_uint64 (named ++ (0 ∷ clan_level clan ∷ [])) 0 in
        let counted = append_words scored (
          non_negative_uint32 records.win
          ∷ non_negative_uint32 records.draw
          ∷ non_negative_uint32 records.lose
          ∷ non_negative_uint32 records.kill
          ∷ non_negative_uint32 records.death
          ∷ 0
          ∷ []) in
        let marked = append_clan_mark (counted ++ (0 ∷ [])) clan in
        let staffed = (marked ++ (0 ∷ [])) ++ counts_row (make_clan_member_counts clan) in
        let described = write_proud_string (write_proud_string staffed []) [] in
        append_day described (date (if clan.created_at == 0 then epoch else clan.created_at))
