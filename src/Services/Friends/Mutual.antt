-- ===== src/Services/Friends/Mutual.antt =====
-- Accepting a friend request writes both friend lists.
use mathlib.Core.Logic.{◌≢◌}
use fear_online_server.Prelude.{
  ℕ, ◌-◌, ◌^◌, ◌<◌, Bool, true, false, ◌==◌, ◌≡◌, refl, ap, arith, eq_iff, List, [], ◌∷◌, ◌++◌, All,
  some, remove_by,
}
use fear_online_server.Models.Item.{Time}
use fear_online_server.Models.Player.{Player, FriendRequest}
use fear_online_server.Models.Player.Social.{
  remove_friend_request, next_social_id, next_social_id_above,
}
use fear_online_server.Repositories.Memory.{Store, memory_players, update_player}
use fear_online_server.Repositories.Table.{lookup, insert, lookup-insert}
use fear_online_server.Services.Friends.{actor, accept, new_friend}

remove_by-append {ℓ} :
    {A : Type ℓ} (test : A → Bool) (before : List A) (x : A) (after : List A)
    → All (λ y. test y ≡ false) before
    → test x ≡ true
    → remove_by test (before ++ (x ∷ after)) ≡ some (x, before ++ after)
remove_by-append test [] x after a h = rw h refl
remove_by-append test (y ∷ before) x after a h =
    rw (a.0, remove_by-append test before x after a.1 h) refl

differ :
    (id : ℕ) (before : List FriendRequest)
    → All (λ x. x.request_id ≢ id) before
    → All (λ x. (x.request_id == id) ≡ false) before
differ id [] a = tt
differ id (x ∷ before) a = (ground (arith, a.0), differ id before a.1)

remove_friend_request_lem :
    (p : Player) (before after : List FriendRequest) (r : FriendRequest)
    → p.friend_requests ≡ before ++ (r ∷ after)
    → All (λ x. x.request_id ≢ r.request_id) before
    → remove_friend_request p r.request_id
      ≡ some (r, record p { friend_requests = before ++ after })
unfolding remove_friend_request
remove_friend_request_lem p before after r e a =
    rw
      (
        e,
        remove_by-append (λ x. x.request_id == r.request_id) before r after
            (differ r.request_id before a) (ground arith),
      )
      refl

-- The two accounts, after the request has been taken out of the list.
accepted :
    (s : Store) (p q left : Player) (id : ℕ) (now : Time) (r : FriendRequest)
    → lookup p.steam_id s.players ≡ some p
    → remove_friend_request p id ≡ some (r, left)
    → left.steam_id ≡ p.steam_id
    → lookup r.steam_id s.players ≡ some q
    → q.steam_id ≡ r.steam_id
    → p.steam_id ≢ q.steam_id
    → let players = (accept memory_players p.steam_id id now s).1.players in
      (lookup p.steam_id players
        ≡ some (record p {
          friends = left.friends ++ (new_friend id q now ∷ []);
          friend_requests = left.friend_requests;
        }))
      × (lookup q.steam_id players
          ≡ some
              (record q { friends = q.friends ++ (new_friend (next_social_id q) left now ∷ []) }))
unfolding accept actor update_player
accepted s p q left id now r e d i f j n =
    let mine = record p {
      friends = left.friends ++ (new_friend id q now ∷ []);
      friend_requests = left.friend_requests;
    } in
    let theirs = record q {
      friends = q.friends ++ (new_friend (next_social_id q) left now ∷ []);
    } in
    let once = insert p.steam_id mine s.players in
    ground (
      arith,
      e,
      d,
      i,
      f,
      j,
      n,
      ap (λ k. lookup k s.players) j,
      eq_iff p.steam_id q.steam_id,
      eq_iff q.steam_id p.steam_id,
      eq_iff p.steam_id p.steam_id,
      eq_iff q.steam_id q.steam_id,
      lookup-insert p.steam_id p.steam_id mine s.players,
      lookup-insert p.steam_id q.steam_id mine s.players,
      lookup-insert q.steam_id p.steam_id theirs once,
      lookup-insert q.steam_id q.steam_id theirs once,
    )

-- Accepting, where the first request of its number names another stored account, whose friends and
-- requests all have numbers below the largest uint16, takes that request out of the actor's list and
-- keeps the others in their order; it appends the sender to the actor's friends, under the request's
-- number, and the actor to the sender's friends, under the sender's next number, both from now on.
-- That number is above those of all friends and requests of the sender. Nothing else of the two
-- accounts changes.
pub accept_mutual :
    (s : Store) (p q : Player) (before after : List FriendRequest) (r : FriendRequest) (now : Time)
    → lookup p.steam_id s.players ≡ some p
    → p.friend_requests ≡ before ++ (r ∷ after)
    → All (λ x. x.request_id ≢ r.request_id) before
    → lookup r.steam_id s.players ≡ some q
    → q.steam_id ≡ r.steam_id
    → p.steam_id ≢ q.steam_id
    → All (λ x. x.friend_id < 2 ^ 16 - 1) q.friends
    → All (λ x. x.request_id < 2 ^ 16 - 1) q.friend_requests
    → let players = (accept memory_players p.steam_id r.request_id now s).1.players in
      (lookup p.steam_id players
        ≡ some (record p {
          friends =
              p.friends
              ++ (record { friend_id = r.request_id; steam_id = q.steam_id; since = now } ∷ []);
          friend_requests = before ++ after;
        }))
      × (lookup q.steam_id players
          ≡ some (record q {
            friends =
                q.friends
                ++ (record { friend_id = next_social_id q; steam_id = p.steam_id; since = now }
                    ∷ []);
          }))
      × (All (λ x. x.friend_id < next_social_id q) q.friends
          × All (λ x. x.request_id < next_social_id q) q.friend_requests)
unfolding new_friend
accept_mutual s p q before after r now e d a f j n fs rs =
    let (mine, theirs) =
      accepted s p q (record p { friend_requests = before ++ after }) r.request_id now r e
        (remove_friend_request_lem p before after r d a) refl f j n in
    (mine, theirs, next_social_id_above q fs rs)
