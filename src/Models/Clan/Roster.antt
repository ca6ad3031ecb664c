-- ===== src/Models/Clan/Roster.antt =====
-- A clan that is well formed: it has one master unless it is empty, and the numbers of its members
-- and applicants are all different.
pub mod Changes
use mathlib.Core.Logic.{◌≢◌}
use fear_online_server.Prelude.{
  ℕ, ◌≡◌, sym, ap, ◌⊎◌, inl, inr, String, ◌=ₛ◌, eq_iff, ◌==◌, Bool, arith, List, [], ◌∷◌, ◌++◌, All,
  All-append, refl, some, none, Option-cases, Option, find_by, remove_by, update_by,
}
use fear_online_server.Models.Clan.{
  Clan, ClanMember, ClanApplicant, clan_rank_master, clan_rank_manager, remove_member,
  remove_applicant,
}
use fear_online_server.Models.Clan.Leader.{
  OneMaster, NoMaster, Apart, Distinct, with_rank, by_id, remove-OneMaster, update-OneMaster,
  hand_over-OneMaster, OneMaster-append,
}

abbrev pub OtherApplicants : ℕ → List ClanApplicant → Type 0
OtherApplicants id xs = All (λ a. a.applicant_id ≢ id) xs

abbrev pub DistinctApplicants : List ClanApplicant → Type 0
DistinctApplicants [] = Unit {0}
DistinctApplicants (a ∷ xs) = OtherApplicants a.applicant_id xs × DistinctApplicants xs

-- No applicant has the number of a member.
abbrev pub Disjoint : List ClanApplicant → List ClanMember → Type 0
Disjoint xs ms = All (λ a. Apart a.applicant_id ms) xs

abbrev pub IsLed : String → List ClanMember → Type 0
IsLed master ms = (ms ≡ []) ⊎ OneMaster master ms

pub record IsRoster (master : String) (ms : List ClanMember) (xs : List ClanApplicant)
    : Type 0 where
  pub led : IsLed master ms
  pub members_distinct : Distinct ms
  pub applicants_distinct : DistinctApplicants xs
  pub disjoint : Disjoint xs ms

abbrev pub IsClan : Clan → Type 0
IsClan c = IsRoster c.master c.members c.applicants

module _ {A : Type 0} where
  pub remove-All :
      (P : A → Type 0) (test : A → Bool) (xs : List A) (x : A) (rest : List A)
      → All P xs
      → remove_by test xs ≡ some (x, rest)
      → P x × All P rest
  remove-All P test [] x rest h e = absurd (cc)
  remove-All P test (y ∷ xs) x rest h e = elim (Option-cases (remove_by test xs)) [
    | inl d ↦ ground (arith, d)
    | inr ((z, left), d) ↦ ground (arith, d, remove-All P test xs z left h.1 d)
  ]

  pub append-All : (P : A → Type 0) (xs : List A) (x : A) → All P xs → P x → All P (xs ++ (x ∷ []))
  append-All P xs x h k = All-append P xs (x ∷ []) h (k, tt)

  -- The removed element is the one that a search finds.
  pub find-remove :
      (test : A → Bool) (xs : List A) (x : A) (rest : List A)
      → remove_by test xs ≡ some (x, rest)
      → find_by test xs ≡ some x
  find-remove test [] x rest e = absurd (cc)
  find-remove test (y ∷ xs) x rest e = elim (Option-cases (remove_by test xs)) [
    | inl d ↦ ground (arith, d)
    | inr ((z, left), d) ↦ ground (arith, d, find-remove test xs z left d)
  ]

  pub find-remove_none :
      (test : A → Bool) (xs : List A) → remove_by test xs ≡ none → find_by test xs ≡ none
  find-remove_none test [] e = refl
  find-remove_none test (y ∷ xs) e = elim (Option-cases (remove_by test xs)) [
    | inl d ↦ ground (arith, d, find-remove_none test xs d)
    | inr ((z, left), d) ↦ ground (arith, d)
  ]

pub remove-Distinct :
    (test : ClanMember → Bool) (ms : List ClanMember) (m : ClanMember) (rest : List ClanMember)
    → Distinct ms
    → remove_by test ms ≡ some (m, rest)
    → Distinct rest
remove-Distinct test [] m rest d e = absurd (cc)
remove-Distinct test (x ∷ ms) m rest d e = elim (Option-cases (remove_by test ms)) [
  | inl q ↦ ground (arith, q)
  | inr ((y, left), q) ↦ ground (
    arith,
    q,
    remove-Distinct test ms y left d.1 q,
    remove-All (λ m. m.member_id ≢ x.member_id) test ms y left d.0 q,
  )
]

-- The numbers that are left differ from the one that is removed.
pub remove-DistinctApplicants :
    (test : ClanApplicant → Bool) (xs : List ClanApplicant) (a : ClanApplicant)
    (rest : List ClanApplicant)
    → DistinctApplicants xs
    → remove_by test xs ≡ some (a, rest)
    → DistinctApplicants rest × OtherApplicants a.applicant_id rest
remove-DistinctApplicants test [] a rest d e = absurd (cc)
remove-DistinctApplicants test (x ∷ xs) a rest d e = elim (Option-cases (remove_by test xs)) [
  | inl q ↦ ground (arith, q)
  | inr ((y, left), q) ↦ ground (
    arith,
    q,
    remove-DistinctApplicants test xs y left d.1 q,
    remove-All (λ a. a.applicant_id ≢ x.applicant_id) test xs y left d.0 q,
  )
]

pub append-Distinct :
    (ms : List ClanMember) (m : ClanMember)
    → Distinct ms
    → Apart m.member_id ms
    → Distinct (ms ++ (m ∷ []))
append-Distinct [] m d h = (tt, tt)
append-Distinct (x ∷ ms) m d h = (
  append-All (λ y. y.member_id ≢ x.member_id) ms m d.0 (λ e. h.0 (sym e)),
  append-Distinct ms m d.1 h.1,
)

pub append-DistinctApplicants :
    (xs : List ClanApplicant) (a : ClanApplicant)
    → DistinctApplicants xs
    → OtherApplicants a.applicant_id xs
    → DistinctApplicants (xs ++ (a ∷ []))
append-DistinctApplicants [] a d h = (tt, tt)
append-DistinctApplicants (x ∷ xs) a d h = (
  append-All (λ y. y.applicant_id ≢ x.applicant_id) xs a d.0 (λ e. h.0 (sym e)),
  append-DistinctApplicants xs a d.1 h.1,
)

update-Apart :
    (id rank : ℕ) (test : ClanMember → Bool) (ms : List ClanMember)
    → Apart id ms
    → Apart id (update_by test (with_rank rank) ms)
update-Apart id rank test [] h = tt
update-Apart id rank test (x ∷ ms) h = ground (arith, update-Apart id rank test ms h.1)

pub update-Distinct :
    (rank : ℕ) (test : ClanMember → Bool) (ms : List ClanMember)
    → Distinct ms
    → Distinct (update_by test (with_rank rank) ms)
update-Distinct rank test [] d = tt
update-Distinct rank test (x ∷ ms) d =
    ground (arith, update-Apart x.member_id rank test ms d.0, update-Distinct rank test ms d.1)

pub update-Disjoint :
    (rank : ℕ) (test : ClanMember → Bool) (xs : List ClanApplicant) (ms : List ClanMember)
    → Disjoint xs ms
    → Disjoint xs (update_by test (with_rank rank) ms)
update-Disjoint rank test [] ms h = tt
update-Disjoint rank test (a ∷ xs) ms h =
    (update-Apart a.applicant_id rank test ms h.0, update-Disjoint rank test xs ms h.1)

pub remove-Disjoint :
    (test : ClanMember → Bool) (xs : List ClanApplicant) (ms : List ClanMember) (m : ClanMember)
    (rest : List ClanMember)
    → Disjoint xs ms
    → remove_by test ms ≡ some (m, rest)
    → Disjoint xs rest
remove-Disjoint test [] ms m rest h e = tt
remove-Disjoint test (a ∷ xs) ms m rest h e = (
  (remove-All (λ m. m.member_id ≢ a.applicant_id) test ms m rest h.0 e).1,
  remove-Disjoint test xs ms m rest h.1 e,
)

-- A member with a number that no applicant has.
pub append-Disjoint :
    (xs : List ClanApplicant) (ms : List ClanMember) (m : ClanMember)
    → Disjoint xs ms
    → OtherApplicants m.member_id xs
    → Disjoint xs (ms ++ (m ∷ []))
append-Disjoint [] ms m h k = tt
append-Disjoint (a ∷ xs) ms m h k = (
  append-All (λ m. m.member_id ≢ a.applicant_id) ms m h.0 (λ e. k.0 (sym e)),
  append-Disjoint xs ms m h.1 k.1,
)
