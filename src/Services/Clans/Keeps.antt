-- ===== src/Services/Clans/Keeps.antt =====
-- Every clan request keeps every stored clan well formed.
pub mod Applications
pub mod Whole
pub mod Ranks
use fear_online_server.Prelude.{◌≡◌, String, ◌=ₛ◌, arith, List, [], ◌∷◌, some, All}
use fear_online_server.Models.Clan.{Clan}
use fear_online_server.Repositories.Table.{lookup}
use fear_online_server.Repositories.Memory.{Store}
use fear_online_server.Services.Clans.Numbers.{HasRoom}
use fear_online_server.Services.Clans.Stored.{AllClans}
use fear_online_server.Services.Clans.Keeps.Applications.{
  join_keeps, accept_keeps, reject_keeps, cancel_keeps,
}
use fear_online_server.Services.Clans.Keeps.Whole.{create_keeps, paint_keeps, disband_keeps}
use fear_online_server.Services.Clans.Keeps.Ranks.{kick_keeps, leave_keeps, place_keeps, rise_keeps}
use fear_online_server.Services.Clans.Request.{
  Request, perform, joins, creates, accepts, rejects, kicks, rises, cancels, leaves, disbands,
  places, paints,
}

-- Every stored clan can give out one more number.
abbrev pub AllRoom : List (String × Clan) → Type 0
AllRoom t = All (λ e. HasRoom e.1) t

lookup-AllRoom :
    (t : List (String × Clan)) (name : String) (c : Clan)
    → AllRoom t
    → lookup name t ≡ some c
    → HasRoom c
lookup-AllRoom [] name c h e = absurd (cc)
lookup-AllRoom ((j, d) ∷ t) name c h e = ground (arith, lookup-AllRoom t name c h.1)

-- Every clan request, whether it succeeds or fails, keeps the stored clans well formed: a clan stands
-- under its name, has exactly one member with the master's rank, who is its Master account, unless it
-- has no members, and no two of its members and applicants share a number. Before the request no
-- clan's numbers stand at the end of the uint16 range.
pub perform-AllClans :
    (r : Request) (s : Store) → AllClans s.clans → AllRoom s.clans → AllClans (perform r s).1.clans
perform-AllClans (joins p name now) s h room =
    join_keeps s h p name now (λ c e. lookup-AllRoom s.clans name c room e)
perform-AllClans (creates id player name mark extra now) s h room =
    create_keeps s h id player name mark extra now
perform-AllClans (accepts p id) s h room = accept_keeps s h p id
perform-AllClans (rejects p id) s h room = reject_keeps s h p id
perform-AllClans (kicks p id) s h room = kick_keeps s h p id
perform-AllClans (rises p id) s h room = rise_keeps s h p id
perform-AllClans (cancels p) s h room = cancel_keeps s h p
perform-AllClans (leaves p) s h room = leave_keeps s h p
perform-AllClans (disbands p) s h room = disband_keeps s h p
perform-AllClans (places p id rank) s h room = place_keeps s h p id rank
perform-AllClans (paints p mark extra) s h room = paint_keeps s h p mark extra
