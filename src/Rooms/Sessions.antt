-- ===== src/Rooms/Sessions.antt =====
-- session_registry.go: which connections belong to which account. A `*Session` is a handle, and a set
-- of them a list without repetitions. Each method holds the lock throughout.
pub mod Agree
pub mod Refines
mod Runs
use fear_online_server.Prelude.{
  ℕ, String, Bool, true, false, not, ◌=ₛ◌, ◌==◌, if◌then◌else◌, List, [], ◌∷◌, map, length, Option,
  none, some, any_by, filter_by,
}
use fear_online_server.Prelude.NatMap.{value_at, put, remove_key}
use fear_online_server.Repositories.Table.{lookup, insert, delete}

pub record SessionRegistry : Type 0 where
  pub by_steam_id : List (String × List ℕ)
  pub by_session_id : List (ℕ × String)

abbrev pub new_session_registry : SessionRegistry
new_session_registry = record { by_steam_id = []; by_session_id = [] }

-- The set at a key; a missing key gives the nil map.
abbrev pub set_at : Option (List ℕ) → List ℕ
set_at none = []
set_at (some set) = set

abbrev pub holds : ℕ → List ℕ → Bool
holds session set = any_by (λ x. x == session) set

-- `sessions[session] = struct{}{}`.
unfoldable pub add_session : ℕ → List ℕ → List ℕ
add_session session set = if holds session set then set else session ∷ set

unfoldable pub drop_session : ℕ → List ℕ → List ℕ
drop_session session set = filter_by (λ x. not (x == session)) set

unfoldable pub remove_locked : SessionRegistry → String → ℕ → SessionRegistry
unfolding drop_session
remove_locked r steam_id session =
    let set = drop_session session (set_at (lookup steam_id r.by_steam_id)) in
    record {
      by_steam_id =
          if length set == 0
          then delete steam_id r.by_steam_id
          else insert steam_id set r.by_steam_id;
      by_session_id = remove_key session r.by_session_id;
    }

abbrev pub without_previous : SessionRegistry → ℕ → Option String → SessionRegistry
without_previous r session none = r
without_previous r session (some previous) = remove_locked r previous session

abbrev pub add_binding : SessionRegistry → String → ℕ → SessionRegistry
add_binding r steam_id session = record {
  by_steam_id =
      insert steam_id (add_session session (set_at (lookup steam_id r.by_steam_id))) r.by_steam_id;
  by_session_id = put session steam_id r.by_session_id;
}

unfoldable pub bind : SessionRegistry → String → ℕ → SessionRegistry
unfolding remove_locked add_session
bind r steam_id session =
    if steam_id =ₛ ""
    then r
    else add_binding (without_previous r session (value_at session r.by_session_id)) steam_id
        session

unfoldable pub unbind : SessionRegistry → ℕ → SessionRegistry
unfolding remove_locked
unbind r session = without_previous r session (value_at session r.by_session_id)

unfoldable pub sessions : SessionRegistry → String → List ℕ
sessions r steam_id = if steam_id =ₛ "" then [] else set_at (lookup steam_id r.by_steam_id)

unfoldable pub is_online : SessionRegistry → String → Bool
is_online r steam_id =
    if steam_id =ₛ "" then false else not (length (set_at (lookup steam_id r.by_steam_id)) == 0)

unfoldable pub online : SessionRegistry → List String
online r = map (λ e. e.0) r.by_steam_id
