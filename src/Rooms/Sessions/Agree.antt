-- ===== src/Rooms/Sessions/Agree.antt =====
-- The two maps of the registry agree: together they are one map from connections to accounts.
use mathlib.Core.Logic.{◌≢◌}
use fear_online_server.Prelude.{
  ℕ, ◌≡◌, refl, ap, String, Bool, false, Bool-cases, not, ◌&&◌, ◌||◌, ◌=ₛ◌, eq_iff, ◌==◌,
  if◌then◌else◌, arith, List, [], ◌∷◌, length, Option, none, some, Option-cases, inl, inr,
}
use fear_online_server.Prelude.NatMap.{value_at, value_at-put, value_at-remove_key}
use fear_online_server.Repositories.Table.{lookup, lookup-insert, lookup-delete}
use fear_online_server.Rooms.Sessions.{
  SessionRegistry, set_at, holds, add_session, drop_session, add_binding, remove_locked, bind,
  unbind,
}

-- The account of a connection: what the registry promises to keep.
abbrev pub account_of : SessionRegistry → ℕ → Option String
account_of r session = value_at session r.by_session_id

abbrev pub is_account : Option String → String → Bool
is_account none s = false
is_account (some t) s = t =ₛ s

-- An account's set holds exactly the connections of the account, no set is kept empty, and no account is
-- the empty text.
pub record Agrees (r : SessionRegistry) : Type 0 where
  pub same :
      (s : String) (x : ℕ)
      → holds x (set_at (lookup s r.by_steam_id)) ≡ is_account (account_of r x) s
  pub named : (x : ℕ) → is_account (account_of r x) "" ≡ false

holds-add_session : (x y : ℕ) (set : List ℕ) → holds y (add_session x set) ≡ (x == y || holds y set)
unfolding add_session
holds-add_session x y set = ground (arith, ap (λ k. holds k set))

holds-drop_session :
    (x y : ℕ) (set : List ℕ) → holds y (drop_session x set) ≡ (not (x == y) && holds y set)
unfolding drop_session
holds-drop_session x y [] = ground arith
holds-drop_session x y (z ∷ set) = ground (arith, holds-drop_session x y set)

-- A map in which the set of one account is replaced.
sets-remove_locked :
    (r : SessionRegistry) (steam_id s : String) (x y : ℕ)
    → holds y (set_at (lookup s (remove_locked r steam_id x).by_steam_id)) ≡ (
        if steam_id =ₛ s
        then not (x == y) && holds y (set_at (lookup s r.by_steam_id))
        else holds y (set_at (lookup s r.by_steam_id)))
unfolding remove_locked
sets-remove_locked r steam_id s x y =
    let set = drop_session x (set_at (lookup steam_id r.by_steam_id)) in
    ground (
      arith,
      eq_iff steam_id s,
      lookup-insert steam_id s set r.by_steam_id,
      lookup-delete steam_id s r.by_steam_id,
      holds-drop_session x y (set_at (lookup steam_id r.by_steam_id)),
      empty set y,
      ap (λ k. set_at (lookup k r.by_steam_id)),
    )
  where
    empty : (set : List ℕ) (y : ℕ) → length set ≡ 0 → holds y set ≡ false
    empty [] y h = refl
    empty (z ∷ set) y h = absurd (omega arith)

remove_locked-Agrees :
    (r : SessionRegistry) (previous : String) (x : ℕ)
    → account_of r x ≡ some previous
    → Agrees r
    → Agrees (remove_locked r previous x)
unfolding remove_locked
remove_locked-Agrees r previous x e h = record {
  same = λ s y. ground (
    arith,
    e,
    sets-remove_locked r previous s x y,
    value_at-remove_key x y r.by_session_id,
    h.same s y,
    ap (λ k. is_account (account_of r k) s),
    eq_iff previous s,
  );
  named = λ y. ground (arith, value_at-remove_key x y r.by_session_id, h.named y);
}

account_of-remove_locked :
    (r : SessionRegistry) (previous : String) (x y : ℕ)
    → account_of (remove_locked r previous x) y ≡ (if x == y then none else account_of r y)
unfolding remove_locked
account_of-remove_locked r previous x y = value_at-remove_key x y r.by_session_id

-- Unbind takes one connection from the map, and both maps of the registry go on to agree.
pub unbind_lem :
    (r : SessionRegistry) (x : ℕ)
    → Agrees r
    → Agrees (unbind r x)
      × ((y : ℕ) → account_of (unbind r x) y ≡ (if x == y then none else account_of r y))
unfolding unbind
unbind_lem r x h = elim (Option-cases (value_at x r.by_session_id)) [
  | inl q ↦ rw q (h, λ y. ground (arith, q, ap (account_of r)))
  | inr (previous, q) ↦
      rw q (remove_locked-Agrees r previous x q h, λ y. account_of-remove_locked r previous x y)
]

add_binding-Agrees :
    (r : SessionRegistry) (steam_id : String) (x : ℕ)
    → steam_id ≢ ""
    → account_of r x ≡ none
    → Agrees r
    → Agrees (add_binding r steam_id x)
add_binding-Agrees r steam_id x n e h = record {
  same = λ s y. ground (
    arith,
    e,
    eq_iff steam_id s,
    lookup-insert steam_id s (add_session x (set_at (lookup steam_id r.by_steam_id))) r.by_steam_id,
    holds-add_session x y (set_at (lookup steam_id r.by_steam_id)),
    value_at-put x y steam_id r.by_session_id,
    h.same s y,
    ap (λ k. is_account (account_of r k) s),
    ap (λ k. set_at (lookup k r.by_steam_id)),
  );
  named =
      λ y. ground (arith, value_at-put x y steam_id r.by_session_id, h.named y, eq_iff steam_id "");
}

-- Bind moves one connection to an account, and both maps of the registry go on to agree.
pub bind_lem :
    (r : SessionRegistry) (steam_id : String) (x : ℕ)
    → Agrees r
    → Agrees (bind r steam_id x)
      × ((y : ℕ)
          → account_of (bind r steam_id x) y ≡ (
              if steam_id =ₛ ""
              then account_of r y
              else if x == y
              then some steam_id
              else account_of r y))
unfolding bind
bind_lem r steam_id x h = elim (Bool-cases (steam_id =ₛ "")) [
  | inl e ↦ rw e (h, λ y. refl)
  | inr n ↦ rw n (elim (Option-cases (value_at x r.by_session_id)) [
    | inl q ↦ rw q (
      add_binding-Agrees r steam_id x (λ e. ground (arith, eq_iff steam_id "")) q h,
      λ y. value_at-put x y steam_id r.by_session_id,
    )
    | inr (previous, q) ↦
        let left = remove_locked r previous x in
        rw q (
          add_binding-Agrees left steam_id x (λ e. ground (arith, eq_iff steam_id ""))
              (ground (arith, account_of-remove_locked r previous x x))
              (remove_locked-Agrees r previous x q h),
          λ y. ground (
            arith,
            value_at-put x y steam_id left.by_session_id,
            account_of-remove_locked r previous x y,
          ),
        )
  ])
]
