-- ===== src/Rooms/Sessions/Runs.antt =====
-- Two connections of one account, one of which changes to another account.
use fear_online_server.Prelude.{◌≡◌, refl, not, ◌==◌, List, [], ◌∷◌, length, none}
use fear_online_server.Rooms.Sessions.{
  new_session_registry, bind, unbind, sessions, is_online, holds,
}
use fear_online_server.Rooms.Sessions.Agree.{is_account}
use fear_online_server.Rooms.Sessions.Refines.{
  Change, binds, unbinds, run, run_abstract, run_refines,
}

abbrev moves : List Change
moves = binds "ada" 1 ∷ binds "ada" 2 ∷ binds "bob" 1 ∷ unbinds 3 ∷ []

run_refines_example :
    (holds 2 (sessions (run moves new_session_registry) "ada")
      ≡ is_account (run_abstract moves (λ y. none) 2) "ada")
    × (is_online (run moves new_session_registry) "ada"
        ≡ not (length (sessions (run moves new_session_registry) "ada") == 0))
run_refines_example = run_refines moves "ada" 2

left : sessions (run moves new_session_registry) "ada" ≡ 2 ∷ []
unfolding run bind unbind sessions
left = refl
