-- ===== src/Services/Clans/Keeps/Applications.antt =====
-- Requests about applications keep every stored clan well formed.
use fear_online_server.Prelude.{
  ℕ, ◌≡◌, refl, String, ◌=ₛ◌, ◌==◌, arith, Bool, [], ◌∷◌, ◌++◌, some, Option-cases, inl, inr,
  find_by, remove_by, any_by,
}
use fear_online_server.Models.Item.{Time}
use fear_online_server.Models.Player.{Player}
use fear_online_server.Models.Clan.{
  Clan, ClanApplicant, can_review_clan_applications, member, remove_applicant, is_full,
}
use fear_online_server.Models.Clan.Leader.{by_account}
use fear_online_server.Models.Clan.Roster.Changes.{refuse-IsRoster, admit-IsRoster, apply-IsRoster}
use fear_online_server.Repositories.Table.{lookup, find_value}
use fear_online_server.Repositories.Memory.{Store, update_clan, update_player}
use fear_online_server.Services.Clans.{
  withdrawn, actor_clan, reviewer_clan, request_join, accept_application, reject_application,
  cancel_application, new_applicant, new_member,
}
use fear_online_server.Services.Clans.Stored.{
  AllClans, lookup-AllClans, find-AllClans, insert-AllClans,
}
use fear_online_server.Services.Clans.Numbers.{HasRoom, next_applicant_id-Apart}
use fear_online_server.Services.Clans.Request.{perform, joins, accepts, rejects, cancels}

abbrev by_applicant : ℕ → ClanApplicant → Bool
by_applicant id a = a.applicant_id == id

module _ (s : Store) (h : AllClans s.clans) where
  pub reject_keeps : (p : Player) (id : ℕ) → AllClans (perform (rejects p id) s).1.clans
  unfolding perform actor_clan reviewer_clan reject_application member remove_applicant update_clan
      can_review_clan_applications
  reject_keeps p id = elim (Option-cases (lookup p.clan_name s.clans)) [
    | inl q ↦ ground (arith, q)
    | inr (c, q) ↦
        let (name, roster) = lookup-AllClans s.clans p.clan_name c h q in
        elim (Option-cases (remove_by (by_applicant id) c.applicants)) [
          | inl r ↦ ground (arith, q, r)
          | inr ((a, rest), r) ↦ ground (
            arith,
            q,
            r,
            name,
            insert-AllClans s.clans p.clan_name (record c { applicants = rest }) h name
                (refuse-IsRoster c.master c.members c.applicants roster (by_applicant id) a rest r),
          )
        ]
  ]

  pub accept_keeps : (p : Player) (id : ℕ) → AllClans (perform (accepts p id) s).1.clans
  unfolding perform actor_clan reviewer_clan accept_application member remove_applicant update_clan
      update_player can_review_clan_applications new_member is_full
  accept_keeps p id = elim (Option-cases (lookup p.clan_name s.clans)) [
    | inl q ↦ ground (arith, q)
    | inr (c, q) ↦
        let (name, roster) = lookup-AllClans s.clans p.clan_name c h q in
        elim (Option-cases (remove_by (by_applicant id) c.applicants)) [
          | inl r ↦ ground (arith, q, r)
          | inr ((a, rest), r) ↦ elim (Option-cases (find_by (by_account p.steam_id) c.members)) [
            | inl f ↦ ground (arith, q, r, f)
            | inr (m, f) ↦ ground (
              arith,
              q,
              r,
              f,
              name,
              insert-AllClans s.clans p.clan_name
                  (record c { members = c.members ++ (new_member a ∷ []); applicants = rest }) h
                  name
                  (admit-IsRoster c.master c.members c.applicants roster (by_applicant id) a rest
                    (by_account p.steam_id) m (new_member a) r f refl (omega arith)),
            )
          ]
        ]
  ]

  pub cancel_keeps : (p : Player) → AllClans (perform (cancels p) s).1.clans
  unfolding perform cancel_application remove_applicant update_clan
  cancel_keeps p =
      elim (Option-cases
        (find_value (λ c. any_by (λ a. a.steam_id =ₛ p.steam_id) c.applicants) s.clans)) [
          | inl q ↦ ground (arith, q)
          | inr (c, q) ↦
              let stored =
                find-AllClans s.clans (λ c. any_by (λ a. a.steam_id =ₛ p.steam_id) c.applicants) c h
                  q in
              let (name, roster) = lookup-AllClans s.clans c.name c h stored in
              let id =
                (withdrawn p.steam_id
                  (find_by (λ a. a.steam_id =ₛ p.steam_id) c.applicants)).applicant_id in
              elim (Option-cases (remove_by (by_applicant id) c.applicants)) [
                | inl r ↦
                    ground (arith, q, r, stored, insert-AllClans s.clans c.name c h refl roster)
                | inr ((a, rest), r) ↦ ground (
                  arith,
                  q,
                  r,
                  stored,
                  insert-AllClans s.clans c.name (record c { applicants = rest }) h refl
                      (refuse-IsRoster c.master c.members c.applicants roster (by_applicant id) a
                        rest r),
                )
              ]
        ]

  pub join_keeps :
      (p : Player) (name : String) (now : Time)
      → ((c : Clan) → lookup name s.clans ≡ some c → HasRoom c)
      → AllClans (perform (joins p name now) s).1.clans
  unfolding perform request_join update_clan new_applicant
  join_keeps p name now room = elim (Option-cases (lookup name s.clans)) [
    | inl q ↦ ground (arith, q)
    | inr (c, q) ↦
        let (key, roster) = lookup-AllClans s.clans name c h q in
        let a = new_applicant c p now in
        let (free, others) = next_applicant_id-Apart c (room c q) in
        ground (
          arith,
          q,
          key,
          insert-AllClans s.clans name (record c { applicants = c.applicants ++ (a ∷ []) }) h key
              (apply-IsRoster c.master c.members c.applicants roster a free others),
        )
  ]
