-- ===== src/Models/Player/Social.antt =====
-- server/internal/models/friend.go: a player's friends and the requests to be one.
use fear_online_server.Prelude.{
  ℕ, ◌+◌, ◌-◌, ◌%◌, ◌^◌, ◌≤◌, ◌<◌, String, Bool, ltb, ◌==◌, ◌=ₛ◌, if◌then◌else◌, arith, List, [],
  ◌∷◌, All, Option, none, some, find_by, any_by, remove_by,
}
use fear_online_server.Models.Player.{Player, Friend, FriendRequest}

unfoldable pub friend : Player → ℕ → Option Friend
friend p id = find_by (λ f. f.friend_id == id) p.friends

unfoldable pub is_friend_of : Player → String → Bool
is_friend_of p steam_id = any_by (λ f. f.steam_id =ₛ steam_id) p.friends

unfoldable pub friend_request_from : Player → String → Option FriendRequest
friend_request_from p steam_id = find_by (λ r. r.steam_id =ₛ steam_id) p.friend_requests

unfoldable pub friend_entry_for : Player → String → Option Friend
friend_entry_for p steam_id = find_by (λ f. f.steam_id =ₛ steam_id) p.friends

abbrev pub with_friends : Player → Option (Friend × List Friend) → Option (Friend × Player)
with_friends p none = none
with_friends p (some (f, rest)) = some (f, record p { friends = rest })

unfoldable pub remove_friend : Player → ℕ → Option (Friend × Player)
remove_friend p id = with_friends p (remove_by (λ f. f.friend_id == id) p.friends)

unfoldable pub remove_friend_of : Player → String → Option (Friend × Player)
remove_friend_of p steam_id = with_friends p (remove_by (λ f. f.steam_id =ₛ steam_id) p.friends)

abbrev pub with_requests :
    Player → Option (FriendRequest × List FriendRequest) → Option (FriendRequest × Player)
with_requests p none = none
with_requests p (some (r, rest)) = some (r, record p { friend_requests = rest })

unfoldable pub remove_friend_request : Player → ℕ → Option (FriendRequest × Player)
remove_friend_request p id = with_requests p (remove_by (λ r. r.request_id == id) p.friend_requests)

-- The two loops of NextSocialID.
unfoldable pub highest_friend : ℕ → List Friend → ℕ
highest_friend highest [] = highest
highest_friend highest (f ∷ fs) =
    highest_friend (if ltb highest f.friend_id then f.friend_id else highest) fs

unfoldable pub highest_request : ℕ → List FriendRequest → ℕ
highest_request highest [] = highest
highest_request highest (r ∷ rs) =
    highest_request (if ltb highest r.request_id then r.request_id else highest) rs

-- The sum is a uint16.
unfoldable pub next_social_id : Player → ℕ
unfolding highest_friend highest_request
next_social_id p = (highest_request (highest_friend 0 p.friends) p.friend_requests + 1) % 2 ^ 16

highest_friend-le :
    (highest : ℕ) (fs : List Friend)
    → (highest ≤ highest_friend highest fs) × All (λ f. f.friend_id ≤ highest_friend highest fs) fs
unfolding highest_friend
highest_friend-le highest [] = ground arith
highest_friend-le highest (f ∷ fs) =
    ground (arith, highest_friend-le (if ltb highest f.friend_id then f.friend_id else highest) fs)

highest_request-le :
    (highest : ℕ) (rs : List FriendRequest)
    → (highest ≤ highest_request highest rs)
      × All (λ r. r.request_id ≤ highest_request highest rs) rs
unfolding highest_request
highest_request-le highest [] = ground arith
highest_request-le highest (r ∷ rs) =
    ground
      (arith, highest_request-le (if ltb highest r.request_id then r.request_id else highest) rs)

friends_below :
    (m n : ℕ) (fs : List Friend)
    → m < n
    → All (λ f. f.friend_id ≤ m) fs
    → All (λ f. f.friend_id < n) fs
friends_below m n [] h a = tt
friends_below m n (f ∷ fs) h a = (omega arith, friends_below m n fs h a.1)

requests_below :
    (m n : ℕ) (rs : List FriendRequest)
    → m < n
    → All (λ r. r.request_id ≤ m) rs
    → All (λ r. r.request_id < n) rs
requests_below m n [] h a = tt
requests_below m n (r ∷ rs) h a = (omega arith, requests_below m n rs h a.1)

highest_friend-lt :
    (highest b : ℕ) (fs : List Friend)
    → highest < b
    → All (λ f. f.friend_id < b) fs
    → highest_friend highest fs < b
unfolding highest_friend
highest_friend-lt highest b [] h a = h
highest_friend-lt highest b (f ∷ fs) h a =
    highest_friend-lt (if ltb highest f.friend_id then f.friend_id else highest) b fs
      (ground (arith, a.0)) a.1

highest_request-lt :
    (highest b : ℕ) (rs : List FriendRequest)
    → highest < b
    → All (λ r. r.request_id < b) rs
    → highest_request highest rs < b
unfolding highest_request
highest_request-lt highest b [] h a = h
highest_request-lt highest b (r ∷ rs) h a =
    highest_request-lt (if ltb highest r.request_id then r.request_id else highest) b rs
      (ground (arith, a.0)) a.1

-- NextSocialID is above the number of every friend and of every request, when none of these has the
-- largest uint16.
pub next_social_id_above :
    (p : Player)
    → All (λ f. f.friend_id < 2 ^ 16 - 1) p.friends
    → All (λ r. r.request_id < 2 ^ 16 - 1) p.friend_requests
    → All (λ f. f.friend_id < next_social_id p) p.friends
      × All (λ r. r.request_id < next_social_id p) p.friend_requests
unfolding next_social_id
next_social_id_above p fs rs =
    let friends = highest_friend-le 0 p.friends in
    let requests = highest_request-le (highest_friend 0 p.friends) p.friend_requests in
    let room =
      highest_request-lt (highest_friend 0 p.friends) (2 ^ 16 - 1) p.friend_requests
        (highest_friend-lt 0 (2 ^ 16 - 1) p.friends (omega arith) fs) rs in
    (
      friends_below (highest_friend 0 p.friends) _ p.friends (omega arith) friends.1,
      requests_below (highest_request (highest_friend 0 p.friends) p.friend_requests) _
          p.friend_requests (omega arith) requests.1,
    )
