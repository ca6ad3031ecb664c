-- ===== src/Models/Clan/Roster/Changes.antt =====
-- What each change of a clan does to its roster: it stays well formed.
use mathlib.Core.Logic.{◌≢◌}
use fear_online_server.Prelude.{
  ℕ, ◌≡◌, ◌≤◌, length, ap, inl, inr, String, Bool, arith, List, [], ◌∷◌, ◌++◌, some, find_by,
  remove_by, update_by,
}
use fear_online_server.Models.Clan.{ClanMember, ClanApplicant, clan_rank_master, clan_rank_manager}
use fear_online_server.Models.Clan.Leader.{
  OneMaster, Apart, with_rank, by_id, remove-OneMaster, update-OneMaster, hand_over-OneMaster,
  OneMaster-append,
}
use fear_online_server.Models.Clan.Roster.{
  IsRoster, OtherApplicants, remove-All, append-All, find-remove, remove-Distinct,
  remove-DistinctApplicants, append-Distinct, append-DistinctApplicants, update-Distinct,
  update-Disjoint, remove-Disjoint, append-Disjoint,
}

module _ (master : String) (ms : List ClanMember) (xs : List ClanApplicant)
    (h : IsRoster master ms xs) where
  pub led_by :
      (test : ClanMember → Bool) (m : ClanMember) → find_by test ms ≡ some m → OneMaster master ms
  led_by test m e = elim h.led [
    | inl none_left ↦ absurd (ground (arith, none_left, ap (find_by test) none_left))
    | inr o ↦ o
  ]

  -- A member without the master's rank goes.
  pub drop-IsRoster :
      (id : ℕ) (m : ClanMember) (rest : List ClanMember)
      → remove_by (by_id id) ms ≡ some (m, rest)
      → m.rank ≢ clan_rank_master
      → IsRoster master rest xs
  drop-IsRoster id m rest e n = record {
    led = inr (
        remove-OneMaster master (by_id id) ms m rest
          (led_by (by_id id) m (find-remove (by_id id) ms m rest e)) e n);
    members_distinct = remove-Distinct (by_id id) ms m rest h.members_distinct e;
    applicants_distinct = h.applicants_distinct;
    disjoint = remove-Disjoint (by_id id) xs ms m rest h.disjoint e;
  }

  -- The only member goes.
  pub empty-IsRoster :
      (id : ℕ) (m : ClanMember) (rest : List ClanMember)
      → remove_by (by_id id) ms ≡ some (m, rest)
      → length ms ≤ 1
      → IsRoster master rest xs
  empty-IsRoster id m rest e n = record {
    led = inl (nobody ms e n);
    members_distinct = remove-Distinct (by_id id) ms m rest h.members_distinct e;
    applicants_distinct = h.applicants_distinct;
    disjoint = remove-Disjoint (by_id id) xs ms m rest h.disjoint e;
  }
    where
      nobody :
          (ms : List ClanMember)
          → remove_by (by_id id) ms ≡ some (m, rest)
          → length ms ≤ 1
          → rest ≡ []
      nobody [] e n = absurd (cc)
      nobody (x ∷ []) e n = ground arith
      nobody (x ∷ y ∷ ms) e n = absurd (omega arith)

  -- A member gets a rank, neither of them the master's.
  pub place-IsRoster :
      (id rank : ℕ) (m : ClanMember)
      → find_by (by_id id) ms ≡ some m
      → m.rank ≢ clan_rank_master
      → rank ≢ clan_rank_master
      → IsRoster master (update_by (by_id id) (with_rank rank) ms) xs
  place-IsRoster id rank m e n k = record {
    led = inr (update-OneMaster master rank (by_id id) ms m (led_by (by_id id) m e) e n k);
    members_distinct = update-Distinct rank (by_id id) ms h.members_distinct;
    applicants_distinct = h.applicants_distinct;
    disjoint = update-Disjoint rank (by_id id) xs ms h.disjoint;
  }

  -- The master raises another member and falls.
  pub hand_over-IsRoster :
      (i j : ℕ) (t b : ClanMember)
      → i ≢ j
      → find_by (by_id i) ms ≡ some t
      → find_by (by_id j) ms ≡ some b
      → b.rank ≡ clan_rank_master
      → IsRoster t.steam_id
          (update_by
            (by_id j)
            (with_rank clan_rank_manager)
            (update_by (by_id i) (with_rank clan_rank_master) ms))
          xs
  hand_over-IsRoster i j t b n e f r =
      let risen = update_by (by_id i) (with_rank clan_rank_master) ms in
      record {
        led = inr (hand_over-OneMaster master i j ms t b n (led_by (by_id i) t e) e f r);
        members_distinct =
            update-Distinct clan_rank_manager (by_id j) risen
              (update-Distinct clan_rank_master (by_id i) ms h.members_distinct);
        applicants_distinct = h.applicants_distinct;
        disjoint =
            update-Disjoint clan_rank_manager (by_id j) xs risen
              (update-Disjoint clan_rank_master (by_id i) xs ms h.disjoint);
      }

  -- An applicant goes.
  pub refuse-IsRoster :
      (test : ClanApplicant → Bool) (a : ClanApplicant) (rest : List ClanApplicant)
      → remove_by test xs ≡ some (a, rest)
      → IsRoster master ms rest
  refuse-IsRoster test a rest e = record {
    led = h.led;
    members_distinct = h.members_distinct;
    applicants_distinct = (remove-DistinctApplicants test xs a rest h.applicants_distinct e).0;
    disjoint = (remove-All (λ a. Apart a.applicant_id ms) test xs a rest h.disjoint e).1;
  }

  -- An applicant becomes a member of a clan that has members.
  pub admit-IsRoster :
      (test : ClanApplicant → Bool) (a : ClanApplicant) (rest : List ClanApplicant)
      (by : ClanMember → Bool) (r m : ClanMember)
      → remove_by test xs ≡ some (a, rest)
      → find_by by ms ≡ some r
      → m.member_id ≡ a.applicant_id
      → m.rank ≢ clan_rank_master
      → IsRoster master (ms ++ (m ∷ [])) rest
  admit-IsRoster test a rest by r m e f i n =
      let (d, others) = remove-DistinctApplicants test xs a rest h.applicants_distinct e in
      let (free, left) = remove-All (λ a. Apart a.applicant_id ms) test xs a rest h.disjoint e in
      record {
        led = inr (OneMaster-append master ms m n (led_by by r f));
        members_distinct = append-Distinct ms m h.members_distinct (rw i free);
        applicants_distinct = d;
        disjoint = append-Disjoint rest ms m left (rw i others);
      }

  -- Somebody applies under a number that nobody has.
  pub apply-IsRoster :
      (a : ClanApplicant)
      → Apart a.applicant_id ms
      → OtherApplicants a.applicant_id xs
      → IsRoster master ms (xs ++ (a ∷ []))
  apply-IsRoster a free others = record {
    led = h.led;
    members_distinct = h.members_distinct;
    applicants_distinct = append-DistinctApplicants xs a h.applicants_distinct others;
    disjoint = append-All (λ a. Apart a.applicant_id ms) xs a h.disjoint free;
  }
