-- ===== src/Rooms/Room/Rounds.antt =====
-- The rounds of a match, its teams and its winner.
use fear_online_server.Prelude.{
  ℕ, zero, suc, ◌+◌, ◌*◌, ◌%◌, ◌^◌, ◌≤◌, ◌<◌, ◌≡◌, refl, ltb, ◌==◌, if◌then◌else◌, arith, List, [],
  ◌∷◌, ◌++◌, length, length-append, some, ◌⊎◌, inl,
}
use fear_online_server.Rooms.Room.{
  Room, RoomUser, add_user, finish_round, first_team, next_team, kills_of, winning_team,
  highest_seat,
}

-- The room after a number of finished rounds.
unfoldable pub play : ℕ → Room → Room
play zero r = r
play (suc n) r = (finish_round (play n r)).2

-- What is left of the rounds: the counter stands at the round that is to be played.
play-round :
    (n : ℕ) (r : Room)
    → r.round ≡ 0
    → r.round_limit < 2 ^ 8
    → n < r.round_limit
    → ((play n r).round_limit ≡ r.round_limit)
      × (((n ≡ 0) × ((play n r).round ≡ 0)) ⊎ ((play n r).round ≡ n + 1))
unfolding play finish_round
play-round zero r e b h = (refl, inl (refl, e))
play-round (suc n) r e b h = ground (arith, play-round n r e b)

-- A fresh match with a limit of rounds plays the rounds 1, 2, … in order and ends with the last of them:
-- FinishRound answers the round that was played, and reports the end exactly at the limit.
pub finish_round-play :
    (n : ℕ) (r : Room)
    → r.round ≡ 0
    → r.round_limit < 2 ^ 8
    → n < r.round_limit
    → let (played, last, s) = finish_round (play n r) in
      (played ≡ n + 1) × (last ≡ (n + 1 == r.round_limit))
unfolding finish_round
finish_round-play n r e b h = ground (arith, play-round n r e b h)

-- The two sides differ by one user at most.
abbrev pub IsBalanced : List RoomUser → Type 0
IsBalanced us = (first_team us * 2 ≤ length us + 1) × (length us ≤ first_team us * 2 + 1)

first_team-append :
    (us : List RoomUser) (u : RoomUser)
    → first_team (us ++ (u ∷ [])) ≡ first_team us + (if u.team == 1 then 1 else 0)
unfolding first_team
first_team-append [] u = omega arith
first_team-append (x ∷ us) u = omega (arith, first_team-append us u)

-- Users that join on the team that NextTeam names keep the sides balanced.
pub next_team-IsBalanced :
    (r s : Room) (u v : RoomUser)
    → IsBalanced r.users
    → u.team ≡ next_team r
    → add_user r u ≡ some (v, s)
    → IsBalanced s.users
unfolding next_team add_user
next_team-IsBalanced r s u v h t e =
    let seated : RoomUser = record u { id = (highest_seat 0 r.users + 1) % 2 ^ 32 } in
    ground (arith, h, first_team-append r.users seated, length-append r.users (seated ∷ []))

-- The kills of a team, added up without a bound.
abbrev pub team_kills : ℕ → List RoomUser → ℕ
team_kills team [] = 0
team_kills team (u ∷ us) = (if u.team == team then u.score.kills else 0) + team_kills team us

kills_of_lem :
    (team : ℕ) (us : List RoomUser) (total : ℕ)
    → total + team_kills team us < 2 ^ 16
    → kills_of team us total ≡ total + team_kills team us
unfolding kills_of
kills_of_lem team [] total h = omega arith
kills_of_lem team (u ∷ us) total h = ground (
  arith,
  kills_of_lem team us (if u.team == team then (total + u.score.kills) % 2 ^ 16 else total),
)

-- The team with more kills wins, and equal kills give 0, as long as neither team's kills leave the uint16
-- range.
pub winning_team_lem :
    (us : List RoomUser)
    → team_kills 1 us < 2 ^ 16
    → team_kills 2 us < 2 ^ 16
    → winning_team us ≡ (
        if ltb (team_kills 2 us) (team_kills 1 us)
        then 1
        else if team_kills 1 us == team_kills 2 us
        then 0
        else 2)
unfolding winning_team
winning_team_lem us h k = ground (arith, kills_of_lem 1 us 0, kills_of_lem 2 us 0)
