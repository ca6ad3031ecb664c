-- ===== src/Match/Runs.antt =====
-- Tickets that are drawn one after another, the same user twice, across the end of the uint16 range.
use fear_online_server.Prelude.{ℕ, ◌≡◌, arith, List, [], ◌∷◌, All, some}
use fear_online_server.Match.{MatchTickets, redeem_ticket}
use fear_online_server.Match.Tickets.{after_draws, draws, redeem-draws}

abbrev one_out : MatchTickets
one_out = record { next = 0xFFFE; by_seat = ((1, 1), 7) ∷ [] }

abbrev members : List (ℕ × ℕ)
members = (7, 2) ∷ (7, 3) ∷ (9, 2) ∷ []

redeem-draws_example :
    All
      (λ d. redeem_ticket (after_draws one_out members) d.ticket d.user ≡ some d.room)
      (draws one_out members)
redeem-draws_example = redeem-draws one_out members (omega arith) (omega arith)
