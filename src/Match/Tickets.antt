-- ===== src/Match/Tickets.antt =====
-- What the tickets of a match lead to.
use mathlib.Core.Logic.{◌≢◌}
use fear_online_server.Prelude.{
  ℕ, ◌+◌, ◌-◌, ◌%◌, ◌^◌, ◌≤◌, ◌<◌, ◌≡◌, refl, ◌∙◌, if◌then◌else◌, arith, List, [], ◌∷◌, length, All,
  some,
}
use fear_online_server.Match.{
  MatchTickets, same_seat, seat_at, put_seat, issue_ticket, redeem_ticket,
}

seat_at-put_seat :
    (s t : ℕ × ℕ) (room : ℕ) (seats : List ((ℕ × ℕ) × ℕ))
    → seat_at t (put_seat s room seats) ≡ (if same_seat s t then some room else seat_at t seats)
unfolding seat_at put_seat
seat_at-put_seat s t room [] = refl
seat_at-put_seat (a, b) (c, d) room (((e, f), r) ∷ seats) =
    ground (arith, seat_at-put_seat (a, b) (c, d) room seats)

-- A ticket that has been drawn: its number, its user and the room that it was drawn for.
pub record Draw : Type 0 where
  pub ticket : ℕ
  pub user : ℕ
  pub room : ℕ

-- The state after tickets have been drawn for a list of rooms and users, one after another.
unfoldable pub after_draws : MatchTickets → List (ℕ × ℕ) → MatchTickets
after_draws t [] = t
after_draws t ((room, user) ∷ rest) = after_draws (issue_ticket t room user).1 rest

-- The tickets that are drawn on the way.
unfoldable pub draws : MatchTickets → List (ℕ × ℕ) → List Draw
draws t [] = []
draws t ((room, user) ∷ rest) =
    let (ticket, after) = issue_ticket t room user in
    record { ticket = ticket; user = user; room = room } ∷ draws after rest

redeem-issue_same :
    (t : MatchTickets) (room user : ℕ)
    → redeem_ticket (issue_ticket t room user).1 (issue_ticket t room user).0 user ≡ some room
unfolding issue_ticket redeem_ticket
redeem-issue_same t room user = ground (
  arith,
  seat_at-put_seat ((t.next + 1) % 2 ^ 16, user) ((t.next + 1) % 2 ^ 16, user) room t.by_seat,
)

redeem-issue_other :
    (t : MatchTickets) (room user ticket other : ℕ)
    → ticket ≢ (t.next + 1) % 2 ^ 16
    → redeem_ticket (issue_ticket t room user).1 ticket other ≡ redeem_ticket t ticket other
unfolding issue_ticket redeem_ticket
redeem-issue_other t room user ticket other n =
    ground (arith, seat_at-put_seat ((t.next + 1) % 2 ^ 16, user) (ticket, other) room t.by_seat)

next-issue :
    (t : MatchTickets) (room user : ℕ) → (issue_ticket t room user).1.next ≡ (t.next + 1) % 2 ^ 16
unfolding issue_ticket
next-issue t room user = refl

-- A ticket that is `k` draws ahead is not drawn again by `k` draws or fewer.
redeem-after_draws :
    (t : MatchTickets) (rest : List (ℕ × ℕ)) (ticket user k : ℕ)
    → ticket ≡ (t.next + 1 + k) % 2 ^ 16
    → k < 2 ^ 16
    → length rest ≤ k
    → redeem_ticket (after_draws t rest) ticket user ≡ redeem_ticket t ticket user
unfolding after_draws
redeem-after_draws t [] ticket user k e h l = refl
redeem-after_draws t ((room, u) ∷ rest) ticket user k e h l =
    redeem-after_draws (issue_ticket t room u).1 rest ticket user (k - 1)
      (omega (arith, e, l, next-issue t room u)) (omega arith) (omega arith)
    ∙ redeem-issue_other t room u ticket user (λ d. absurd (omega (arith, d, e, h, l)))

ticket-issue :
    (t : MatchTickets) (room user : ℕ) → (issue_ticket t room user).0 ≡ (t.next + 1) % 2 ^ 16
unfolding issue_ticket
ticket-issue t room user = refl

-- Up to 2^16 tickets that are drawn one after another, from a uint16 counter, for any rooms and users,
-- the same user more than once too, all stay good: after the last draw each ticket with its user
-- leads to the room that it was drawn for.
pub redeem-draws :
    (t : MatchTickets) (members : List (ℕ × ℕ))
    → t.next < 2 ^ 16
    → length members ≤ 2 ^ 16
    → All
        (λ d. redeem_ticket (after_draws t members) d.ticket d.user ≡ some d.room)
        (draws t members)
unfolding after_draws draws
redeem-draws t [] n h = tt
redeem-draws t ((room, user) ∷ rest) n h =
    let (ticket, after) = issue_ticket t room user in
    (
      redeem-after_draws after rest ticket user (2 ^ 16 - 1)
            (omega (arith, next-issue t room user, ticket-issue t room user)) (omega arith)
            (omega arith)
          ∙ redeem-issue_same t room user,
      redeem-draws after rest (omega (arith, next-issue t room user)) (omega arith),
    )
