-- ===== src/Services/Clans/Request.antt =====
-- The requests that change clans, over the in-memory stores.
use fear_online_server.Prelude.{ℕ, String, ◌≡◌}
use fear_online_server.Models.Item.{Time}
use fear_online_server.Models.Player.{Player}
use fear_online_server.Models.Clan.{Clan, Mark}
use fear_online_server.Repositories.Exec.{Error, Result, err, Exec, pure, ◌>>=◌}
use fear_online_server.Repositories.Memory.{Store, memory_clans, memory_players}
use fear_online_server.Services.Clans.{
  change_mark, request_join, create, accept_application, reject_application, cancel_application,
  kick_member, leave, change_position, change_master, disband,
}

pub data Request : Type 0 where
  joins : Player → String → Time → Request
  creates : String → String → String → Mark → ℕ → Time → Request
  accepts rejects kicks rises : Player → ℕ → Request
  cancels leaves disbands : Player → Request
  places : Player → ℕ → ℕ → Request
  paints : Player → Mark → ℕ → Request

-- The error of a call, if it fails.
abbrev pub Fails : {A : Type 0} → Error → Result A × Store → Type 0
Fails e r = r.0 ≡ err e

abbrev first_of : {A : Type 0} → Exec Store (Clan × A) → Exec Store Clan
first_of m = do (c, a) ← m; pure c

abbrev first_of_three : {A B : Type 0} → Exec Store (Clan × A × B) → Exec Store Clan
first_of_three m = do (c, a, b) ← m; pure c

-- The clan that a request answers.
unfoldable pub perform : Request → Exec Store Clan
unfolding change_mark request_join create accept_application reject_application cancel_application
    kick_member leave change_position change_master disband
perform (joins p name now) = request_join memory_clans memory_players p name now
perform (creates id player name mark extra now) =
    create memory_clans memory_players id player name mark extra now
perform (accepts p id) = first_of (accept_application memory_clans memory_players p id)
perform (rejects p id) = first_of (reject_application memory_clans memory_players p id)
perform (kicks p id) = first_of (kick_member memory_clans memory_players p id)
perform (rises p id) = first_of_three (change_master memory_clans memory_players p id)
perform (cancels p) = first_of (cancel_application memory_clans memory_players p)
perform (leaves p) = first_of (leave memory_clans memory_players p)
perform (disbands p) = disband memory_clans memory_players p
perform (places p id rank) = first_of (change_position memory_clans memory_players p id rank)
perform (paints p mark extra) = change_mark memory_clans memory_players p mark extra
