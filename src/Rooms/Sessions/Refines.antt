-- ===== src/Rooms/Sessions/Refines.antt =====
-- The registry of sessions implements one map from connections to accounts.
use fear_online_server.Prelude.{
  ℕ, ◌≡◌, refl, String, not, ◌=ₛ◌, eq_iff, ◌==◌, if◌then◌else◌, arith, List, [], ◌∷◌, length,
  Option, none, some,
}
use fear_online_server.Rooms.Sessions.{
  SessionRegistry, new_session_registry, holds, bind, unbind, sessions, is_online,
}
use fear_online_server.Rooms.Sessions.Agree.{Agrees, account_of, is_account, bind_lem, unbind_lem}

-- The changes of the registry.
pub data Change : Type 0 where
  binds : String → ℕ → Change
  unbinds : ℕ → Change

unfoldable pub run : List Change → SessionRegistry → SessionRegistry
unfolding bind unbind
run [] r = r
run (binds steam_id x ∷ changes) r = run changes (bind r steam_id x)
run (unbinds x ∷ changes) r = run changes (unbind r x)

-- The same changes of one map from connections to accounts.
unfoldable pub run_abstract : List Change → (ℕ → Option String) → ℕ → Option String
run_abstract [] m x = m x
run_abstract (binds steam_id x ∷ changes) m y =
    run_abstract changes
      (λ z. if steam_id =ₛ "" then m z else if x == z then some steam_id else m z) y
run_abstract (unbinds x ∷ changes) m y = run_abstract changes (λ z. if x == z then none else m z) y

run-Agrees :
    (changes : List Change) (r : SessionRegistry) (m : ℕ → Option String)
    → Agrees r
    → ((x : ℕ) → account_of r x ≡ m x)
    → Agrees (run changes r) × ((x : ℕ) → account_of (run changes r) x ≡ run_abstract changes m x)
unfolding run run_abstract
run-Agrees [] r m h e = (h, e)
run-Agrees (binds steam_id x ∷ changes) r m h e =
    let (agrees, moved) = bind_lem r steam_id x h in
    run-Agrees changes (bind r steam_id x)
      (λ z. if steam_id =ₛ "" then m z else if x == z then some steam_id else m z) agrees
      (λ y. ground (arith, moved y, e y))
run-Agrees (unbinds x ∷ changes) r m h e =
    let (agrees, moved) = unbind_lem r x h in
    run-Agrees changes (unbind r x) (λ z. if x == z then none else m z) agrees
      (λ y. ground (arith, moved y, e y))

new-Agrees : Agrees new_session_registry
new-Agrees = record { same = λ s x. refl; named = λ x. refl }

sessions_lem :
    (r : SessionRegistry) (s : String) (x : ℕ)
    → Agrees r
    → holds x (sessions r s) ≡ is_account (account_of r x) s
unfolding sessions
sessions_lem r s x h = ground (arith, h.same s x, h.named x, eq_iff s "")

is_online_lem :
    (r : SessionRegistry) (s : String) → is_online r s ≡ not (length (sessions r s) == 0)
unfolding sessions is_online
is_online_lem r s = ground arith

-- After any sequence of Bind and Unbind, the connections that Sessions lists for an account are exactly
-- those that one map from connections to accounts gives it, and IsOnline tells whether it lists any.
pub run_refines :
    (changes : List Change) (s : String) (x : ℕ)
    → let r = run changes new_session_registry in
      (holds x (sessions r s) ≡ is_account (run_abstract changes (λ y. none) x) s)
      × (is_online r s ≡ not (length (sessions r s) == 0))
run_refines changes s x =
    let (agrees, same) =
      run-Agrees changes new_session_registry (λ y. none) new-Agrees (λ y. refl) in
    let r = run changes new_session_registry in
    (ground (arith, sessions_lem r s x agrees, same x), is_online_lem r s)
