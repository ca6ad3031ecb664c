-- ===== src/Services/Clans/Numbers.antt =====
-- nextApplicantID gives a number that no member and no applicant has, while there is room.
use fear_online_server.Prelude.{ℕ, ◌-◌, ◌^◌, ◌≤◌, ◌<◌, ltb, if◌then◌else◌, arith, List, [], ◌∷◌}
use fear_online_server.Models.Clan.{Clan, ClanMember, ClanApplicant}
use fear_online_server.Models.Clan.Leader.{Apart}
use fear_online_server.Models.Clan.Roster.{OtherApplicants}
use fear_online_server.Services.Clans.{highest_member, highest_applicant, next_applicant_id}

highest_member-le :
    (highest : ℕ) (ms : List ClanMember)
    → (highest ≤ highest_member highest ms)
      × ((id : ℕ) → highest_member highest ms < id → Apart id ms)
unfolding highest_member
highest_member-le highest [] = (omega arith, λ id h. tt)
highest_member-le highest (m ∷ ms) =
    let rest = highest_member-le (if ltb highest m.member_id then m.member_id else highest) ms in
    (ground (arith, rest.0), λ id h. (ground (arith, rest.0), rest.1 id h))

highest_applicant-le :
    (highest : ℕ) (xs : List ClanApplicant)
    → (highest ≤ highest_applicant highest xs)
      × ((id : ℕ) → highest_applicant highest xs < id → OtherApplicants id xs)
unfolding highest_applicant
highest_applicant-le highest [] = (omega arith, λ id h. tt)
highest_applicant-le highest (a ∷ xs) =
    let rest =
      highest_applicant-le (if ltb highest a.applicant_id then a.applicant_id else highest) xs in
    (ground (arith, rest.0), λ id h. (ground (arith, rest.0), rest.1 id h))

-- No number stands at the end of the uint16 range yet.
abbrev pub HasRoom : Clan → Type 0
HasRoom c = highest_applicant (highest_member 0 c.members) c.applicants < 2 ^ 16 - 1

pub next_applicant_id-Apart :
    (c : Clan)
    → HasRoom c
    → Apart (next_applicant_id c) c.members × OtherApplicants (next_applicant_id c) c.applicants
unfolding next_applicant_id
next_applicant_id-Apart c room =
    let members = highest_member-le 0 c.members in
    let applicants = highest_applicant-le (highest_member 0 c.members) c.applicants in
    (members.1 _ (omega arith), applicants.1 _ (omega arith))
