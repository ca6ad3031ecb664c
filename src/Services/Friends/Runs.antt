-- ===== src/Services/Friends/Runs.antt =====
-- Friend requests between two accounts.
use fear_online_server.Prelude.{◌<◌, All, ◌≡◌, refl, arith, eq_iff, [], ◌∷◌, ◌++◌, some}
use fear_online_server.Models.Player.{Player, Friend, FriendRequest, no_player}
use fear_online_server.Repositories.Exec.{request_not_found}
use fear_online_server.Repositories.Memory.{Store, memory_players}
use fear_online_server.Services.Friends.{accept, reject}
use fear_online_server.Models.Player.Social.{next_social_id}
use fear_online_server.Repositories.Table.{lookup}
use fear_online_server.Services.Friends.Mutual.{accept_mutual}
use fear_online_server.Services.Friends.Failure.{run, rejects, run_unchanged}

abbrev old_friend : Friend
old_friend = record { friend_id = 2; steam_id = "9"; since = 3 }

abbrev first_request : FriendRequest
first_request = record { request_id = 3; steam_id = "5"; sent_at = 1 }

abbrev request : FriendRequest
request = record { request_id = 4; steam_id = "8"; sent_at = 1 }

abbrev last_request : FriendRequest
last_request = record { request_id = 5; steam_id = "6"; sent_at = 2 }

abbrev ada : Player
ada = record no_player {
  steam_id = "7";
  name = "ada";
  friends = old_friend ∷ [];
  friend_requests = first_request ∷ request ∷ last_request ∷ [];
}

abbrev bob : Player
bob = record no_player { steam_id = "8"; name = "bob"; friends = old_friend ∷ [] }

abbrev town : Store
town = record { players = ("7", ada) ∷ ("8", bob) ∷ []; clans = [] }

reject-fails : (run (rejects "7" 6) town).0 ≡ some request_not_found
unfolding reject
reject-fails = refl

run_unchanged_example : (run (rejects "7" 6) town).1 ≡ town
run_unchanged_example = run_unchanged (rejects "7" 6) town request_not_found reject-fails

accept_mutual_example :
    (lookup "7" (accept memory_players "7" 4 9 town).1.players
      ≡ some (record ada {
        friends = (old_friend ∷ []) ++ (record { friend_id = 4; steam_id = "8"; since = 9 } ∷ []);
        friend_requests = (first_request ∷ []) ++ (last_request ∷ []);
      }))
    × (lookup "8" (accept memory_players "7" 4 9 town).1.players
        ≡ some (record bob {
          friends =
              (old_friend ∷ [])
              ++ (record { friend_id = next_social_id bob; steam_id = "7"; since = 9 } ∷ []);
        }))
    × (All (λ x. x.friend_id < next_social_id bob) bob.friends
        × All (λ x. x.request_id < next_social_id bob) bob.friend_requests)
accept_mutual_example =
    accept_mutual town ada bob (first_request ∷ []) (last_request ∷ []) request 9 refl refl
      (ground arith, tt) refl refl (ground (arith, eq_iff "7" "8")) (omega arith, tt) tt
