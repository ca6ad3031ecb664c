-- ===== src/Models/Clan/Leader.antt =====
-- A clan's roster: one master, and member numbers that are all different.
use mathlib.Core.Logic.{◌≢◌}
use fear_online_server.Prelude.{
  ℕ, ◌≡◌, ◌⊎◌, inl, inr, String, ◌=ₛ◌, eq_iff, ◌==◌, Bool, arith, List, [], ◌∷◌, ◌++◌, All, some,
  Option-cases, find_by, remove_by, update_by,
}
use fear_online_server.Models.Clan.{ClanMember, clan_rank_master, clan_rank_manager}

abbrev pub NoMaster : List ClanMember → Type 0
NoMaster ms = All (λ m. m.rank ≢ clan_rank_master) ms

-- One member has the master's rank, and it is the account `master`.
abbrev pub OneMaster : String → List ClanMember → Type 0
OneMaster master [] = ⊥
OneMaster master (m ∷ ms) =
    ((m.rank ≡ clan_rank_master) × (m.steam_id ≡ master) × NoMaster ms)
    ⊎ ((m.rank ≢ clan_rank_master) × OneMaster master ms)

abbrev pub Apart : ℕ → List ClanMember → Type 0
Apart id ms = All (λ m. m.member_id ≢ id) ms

abbrev pub Distinct : List ClanMember → Type 0
Distinct [] = Unit {0}
Distinct (m ∷ ms) = Apart m.member_id ms × Distinct ms

abbrev pub by_id : ℕ → ClanMember → Bool
by_id id m = m.member_id == id

abbrev pub by_account : String → ClanMember → Bool
by_account steam_id m = m.steam_id =ₛ steam_id

abbrev pub with_rank : ℕ → ClanMember → ClanMember
with_rank rank m = record m { rank = rank }

pub OneMaster-append :
    (master : String) (ms : List ClanMember) (m : ClanMember)
    → m.rank ≢ clan_rank_master
    → OneMaster master ms
    → OneMaster master (ms ++ (m ∷ []))
OneMaster-append master [] m h o = absurd o
OneMaster-append master (x ∷ ms) m h (inl (r, s, n)) = inl (r, s, NoMaster-append ms m h n)
  where
    NoMaster-append :
        (ms : List ClanMember) (m : ClanMember)
        → m.rank ≢ clan_rank_master
        → NoMaster ms
        → NoMaster (ms ++ (m ∷ []))
    NoMaster-append [] m h n = (h, tt)
    NoMaster-append (x ∷ ms) m h n = (n.0, NoMaster-append ms m h n.1)
OneMaster-append master (x ∷ ms) m h (inr (r, o)) = inr (r, OneMaster-append master ms m h o)

find-NoMaster :
    (test : ClanMember → Bool) (ms : List ClanMember) (m : ClanMember)
    → NoMaster ms
    → find_by test ms ≡ some m
    → m.rank ≢ clan_rank_master
find-NoMaster test [] m n e = absurd (cc)
find-NoMaster test (x ∷ ms) m n e = ground (arith, find-NoMaster test ms m n.1)

find-Apart :
    (id : ℕ) (test : ClanMember → Bool) (ms : List ClanMember) (m : ClanMember)
    → Apart id ms
    → find_by test ms ≡ some m
    → m.member_id ≢ id
find-Apart id test [] m n e = absurd (cc)
find-Apart id test (x ∷ ms) m n e = ground (arith, find-Apart id test ms m n.1)

-- An account that is found has the number under which it is found.
pub find-by_id :
    (steam_id : String) (ms : List ClanMember) (m : ClanMember)
    → Distinct ms
    → find_by (by_account steam_id) ms ≡ some m
    → find_by (by_id m.member_id) ms ≡ some m
find-by_id steam_id [] m d e = absurd (cc)
find-by_id steam_id (x ∷ ms) m d e = ground (
  arith,
  eq_iff x.steam_id steam_id,
  find-Apart x.member_id (by_account steam_id) ms m d.0,
  find-by_id steam_id ms m d.1,
)

-- Two members that are found with the master's rank are one.
pub find-OneMaster :
    (master : String) (s t : ClanMember → Bool) (ms : List ClanMember) (a b : ClanMember)
    → OneMaster master ms
    → find_by s ms ≡ some a
    → find_by t ms ≡ some b
    → a.rank ≡ clan_rank_master
    → b.rank ≡ clan_rank_master
    → a ≡ b
find-OneMaster master s t [] a b o e f ra rb = absurd o
find-OneMaster master s t (x ∷ ms) a b (inl (r, q, n)) e f ra rb =
    ground (arith, find-NoMaster s ms a n, find-NoMaster t ms b n)
find-OneMaster master s t (x ∷ ms) a b (inr (r, o)) e f ra rb =
    ground (arith, find-OneMaster master s t ms a b o)

-- Removing a member without the master's rank keeps the master.
pub remove-OneMaster :
    (master : String) (test : ClanMember → Bool) (ms : List ClanMember) (m : ClanMember)
    (rest : List ClanMember)
    → OneMaster master ms
    → remove_by test ms ≡ some (m, rest)
    → m.rank ≢ clan_rank_master
    → OneMaster master rest
remove-OneMaster master test [] m rest o e n = absurd o
remove-OneMaster master test (x ∷ ms) m rest (inl (r, q, k)) e n =
    elim (Option-cases (remove_by test ms)) [
      | inl d ↦ ground (arith, d)
      | inr ((y, left), d) ↦ ground (arith, d, remove-NoMaster test ms y left k d)
    ]
  where
    remove-NoMaster :
        (test : ClanMember → Bool) (ms : List ClanMember) (m : ClanMember) (rest : List ClanMember)
        → NoMaster ms
        → remove_by test ms ≡ some (m, rest)
        → NoMaster rest
    remove-NoMaster test [] m rest k e = absurd (cc)
    remove-NoMaster test (x ∷ ms) m rest k e = elim (Option-cases (remove_by test ms)) [
      | inl d ↦ ground (arith, d)
      | inr ((y, left), d) ↦ ground (arith, d, remove-NoMaster test ms y left k.1 d)
    ]
remove-OneMaster master test (x ∷ ms) m rest (inr (r, o)) e n =
    elim (Option-cases (remove_by test ms)) [
      | inl d ↦ ground (arith, d)
      | inr ((y, left), d) ↦ ground (arith, d, remove-OneMaster master test ms y left o d)
    ]

update-NoMaster :
    (rank : ℕ) (test : ClanMember → Bool) (ms : List ClanMember)
    → rank ≢ clan_rank_master
    → NoMaster ms
    → NoMaster (update_by test (with_rank rank) ms)
update-NoMaster rank test [] n k = tt
update-NoMaster rank test (x ∷ ms) n k = ground (arith, update-NoMaster rank test ms n k.1)

-- Giving another rank to a member without the master's rank keeps the master.
pub update-OneMaster :
    (master : String) (rank : ℕ) (test : ClanMember → Bool) (ms : List ClanMember) (m : ClanMember)
    → OneMaster master ms
    → find_by test ms ≡ some m
    → m.rank ≢ clan_rank_master
    → rank ≢ clan_rank_master
    → OneMaster master (update_by test (with_rank rank) ms)
update-OneMaster master rank test [] m o e n k = absurd o
update-OneMaster master rank test (x ∷ ms) m (inl (r, q, h)) e n k =
    ground (arith, update-NoMaster rank test ms k h)
update-OneMaster master rank test (x ∷ ms) m (inr (r, o)) e n k =
    ground (arith, update-OneMaster master rank test ms m o)

-- Where nobody is master, a member that rises is the one.
rise-OneMaster :
    (test : ClanMember → Bool) (ms : List ClanMember) (t : ClanMember)
    → NoMaster ms
    → find_by test ms ≡ some t
    → OneMaster t.steam_id (update_by test (with_rank clan_rank_master) ms)
rise-OneMaster test [] t k e = absurd (cc)
rise-OneMaster test (x ∷ ms) t k e = ground (arith, rise-OneMaster test ms t k.1)

-- When the master falls, nobody is.
fall-NoMaster :
    (master : String) (test : ClanMember → Bool) (ms : List ClanMember) (b : ClanMember)
    → OneMaster master ms
    → find_by test ms ≡ some b
    → b.rank ≡ clan_rank_master
    → NoMaster (update_by test (with_rank clan_rank_manager) ms)
fall-NoMaster master test [] b o e r = absurd o
fall-NoMaster master test (x ∷ ms) b (inl (q, w, k)) e r = ground (arith, find-NoMaster test ms b k)
fall-NoMaster master test (x ∷ ms) b (inr (q, o)) e r =
    ground (arith, fall-NoMaster master test ms b o)

-- A master that raises another member and then falls has handed the clan over.
pub hand_over-OneMaster :
    (master : String) (i j : ℕ) (ms : List ClanMember) (t b : ClanMember)
    → i ≢ j
    → OneMaster master ms
    → find_by (by_id i) ms ≡ some t
    → find_by (by_id j) ms ≡ some b
    → b.rank ≡ clan_rank_master
    → OneMaster t.steam_id (
        update_by
          (by_id j)
          (with_rank clan_rank_manager)
          (update_by (by_id i) (with_rank clan_rank_master) ms))
hand_over-OneMaster master i j [] t b n o e f r = absurd o
hand_over-OneMaster master i j (x ∷ ms) t b n (inl (q, w, k)) e f r =
    ground (arith, find-NoMaster (by_id j) ms b k, rise-OneMaster (by_id i) ms t k)
hand_over-OneMaster master i j (x ∷ ms) t b n (inr (q, o)) e f r =
    ground (arith, fall-NoMaster master (by_id j) ms b o, hand_over-OneMaster master i j ms t b n o)
