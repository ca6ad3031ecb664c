-- ===== src/Services/Friends/Failure.antt =====
-- What friend requests leave behind in the in-memory stores.
use fear_online_server.Prelude.{ℕ, String, ◌≡◌, arith, Option, some, none}
use fear_online_server.Models.Item.{Time}
use fear_online_server.Repositories.Exec.{Error, Result, ok, err}
use fear_online_server.Repositories.Memory.{Store, memory_players, update_player}
use fear_online_server.Services.Friends.{actor, send_request, accept, reject, delete}

-- The requests that change friend lists.
pub data FriendChange : Type 0 where
  sends : (String → String) → String → String → Time → FriendChange
  accepts : String → ℕ → Time → FriendChange
  rejects deletes : String → ℕ → FriendChange

abbrev failure : {A : Type 0} → Result A × Store → Option Error × Store
failure (ok a, s) = (none, s)
failure (err e, s) = (some e, s)

abbrev pub run : FriendChange → Store → Option Error × Store
run (sends trim id name now) s = failure (send_request memory_players trim id name now s)
run (accepts id request now) s = failure (accept memory_players id request now s)
run (rejects id request) s = failure (reject memory_players id request s)
run (deletes id friend) s = failure (delete memory_players id friend s)

-- A change of the friend lists that answers an error has not changed the in-memory stores.
pub run_unchanged :
    (c : FriendChange) (s : Store) (e : Error) → (run c s).0 ≡ some e → (run c s).1 ≡ s
unfolding send_request accept reject delete actor update_player
run_unchanged (sends trim id name now) s e h = ground arith
run_unchanged (accepts id request now) s e h = ground arith
run_unchanged (rejects id request) s e h = ground arith
run_unchanged (deletes id friend) s e h = ground arith
