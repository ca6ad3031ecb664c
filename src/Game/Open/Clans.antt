-- ===== src/Game/Open/Clans.antt =====
-- The handlers of clan_actions.go keep the open rooms.
use fear_online_server.Prelude.{ℕ, String, List, Option, none, some}
use fear_online_server.Game.{Places, Env, Act, change_places}
use fear_online_server.Game.Open.Seats.{IsOpen}
use fear_online_server.Game.Open.Keeps.{
  Keeps, keeps, then-Keeps, if-Keeps, change_places-Keeps, account_of-Keeps, unless_none-Keeps,
}
use fear_online_server.Game.Open.Sending.{send_to_account-Keeps}
use fear_online_server.Models.Clan.{Clan, ClanMember, ClanApplicant}
use fear_online_server.Models.Player.{Player}
use fear_online_server.Repositories.Exec.{Result, ok, err}
use fear_online_server.Wire.Bytes.{read_uint16}
use fear_online_server.Identity.{resolve_player}
use fear_online_server.Game.Open.Keeps.{each_of-Keeps, sessions_of-Keeps}
use fear_online_server.Prelude.{ltb, length}
use fear_online_server.Game.Clans.{
  unless_missing, in_clan, with_actor_and_id, set_session_clan, broadcast_clan, broadcast_reviewers,
  roster, member_wire, welcome, announce_departure, deleted, delete_clan, accepted, accept_member,
  rejected, reject_member, cancelled, cancel_join, kick_out, leave_clan, repositioned, set_position,
  handed_over, hand_over,
}

module _ {S : Type 0} (env : Env S) where
  pub unless_missing-Keeps :
      {A : Type 0} (r : Result (Option A)) {m : Act S (Unit {0})} {f : A → Act S (Unit {0})}
      → Keeps m
      → ((a : A) → Keeps (f a))
      → Keeps (unless_missing r m f)
  unless_missing-Keeps (err e) h k = h
  unless_missing-Keeps (ok none) h k = h
  unless_missing-Keeps (ok (some a)) h k = k a

  pub with_actor_and_id-Keeps :
      (x : ℕ) (body : List ℕ) {m : Act S (Unit {0})} {f : Player → ℕ → Act S (Unit {0})}
      → Keeps m
      → ((p : Player) (id : ℕ) → Keeps (f p id))
      → Keeps (with_actor_and_id x body m f)
  unfolding with_actor_and_id
  with_actor_and_id-Keeps x body h k = then-Keeps (account_of-Keeps x) (λ account.
      unless_none-Keeps account h (λ p. if-Keeps (ltb (length body) 2) h (k p (read_uint16 body))))

  pub in_clan-IsOpen :
      (x : ℕ) (name : String) (found : Option Player) (p : Places)
      → IsOpen p
      → IsOpen (in_clan x name found p)
  in_clan-IsOpen x name none p o = o
  in_clan-IsOpen x name (some player) p o = o

  set_session_clan-Keeps : (steam_id name : String) → Keeps {S = S} (set_session_clan steam_id name)
  unfolding set_session_clan
  set_session_clan-Keeps steam_id name = then-Keeps (sessions_of-Keeps steam_id) (λ xs.
      each_of-Keeps (λ x. change_places (λ p. in_clan x name (resolve_player p.states x) p)) xs
        (λ x.
          change_places-Keeps (λ p. in_clan x name (resolve_player p.states x) p)
            (λ p. in_clan-IsOpen x name (resolve_player p.states x) p)))

  pub broadcast_clan-Keeps :
      (clan : Clan) (msgs : List (ℕ × List ℕ)) → Keeps (broadcast_clan {S = S} clan msgs)
  unfolding broadcast_clan
  broadcast_clan-Keeps clan msgs = search (keeps, send_to_account-Keeps) depth 9

  pub broadcast_reviewers-Keeps :
      (clan : Clan) (msgs : List (ℕ × List ℕ)) → Keeps (broadcast_reviewers {S = S} clan msgs)
  unfolding broadcast_reviewers
  broadcast_reviewers-Keeps clan msgs = search (keeps, send_to_account-Keeps) depth 9

  pub roster-Keeps : (clan : Clan) → Keeps (roster env clan)
  unfolding roster
  roster-Keeps clan = search (keeps) depth 9

  member_wire-Keeps : (m : ClanMember) → Keeps (member_wire env m)
  unfolding member_wire
  member_wire-Keeps m = search (keeps) depth 9

  welcome-Keeps : (clan : Clan) (member : ClanMember) → Keeps (welcome env clan member)
  unfolding welcome
  welcome-Keeps clan member =
      search (keeps, set_session_clan-Keeps, roster-Keeps, send_to_account-Keeps) depth 9

  announce_departure-Keeps : (r : Clan × ClanMember) → Keeps (announce_departure env r)
  unfolding announce_departure
  announce_departure-Keeps (clan, member) =
      search (keeps, broadcast_clan-Keeps, set_session_clan-Keeps, send_to_account-Keeps) depth 9

  deleted-Keeps : (x : ℕ) (clan : Clan) → Keeps (deleted env x clan)
  unfolding deleted
  deleted-Keeps x clan =
      search (keeps, set_session_clan-Keeps, broadcast_clan-Keeps, send_to_account-Keeps) depth 9

  pub delete_clan-Keeps : (x : ℕ) (body : List ℕ) → Keeps (delete_clan env x body)
  unfolding delete_clan
  delete_clan-Keeps x body = search (keeps, deleted-Keeps) depth 9

  accepted-Keeps : (x applicant : ℕ) (r : Clan × ClanMember) → Keeps (accepted env x applicant r)
  unfolding accepted
  accepted-Keeps x applicant (clan, member) =
      search
        (keeps, broadcast_reviewers-Keeps, member_wire-Keeps, broadcast_clan-Keeps, welcome-Keeps)
        depth 9

  pub accept_member-Keeps : (x : ℕ) (body : List ℕ) → Keeps (accept_member env x body)
  unfolding accept_member
  accept_member-Keeps x body = search (keeps, with_actor_and_id-Keeps, accepted-Keeps) depth 9

  rejected-Keeps : (x applicant : ℕ) (r : Clan × ClanApplicant) → Keeps (rejected env x applicant r)
  unfolding rejected
  rejected-Keeps x id (clan, applicant) =
      search (keeps, broadcast_reviewers-Keeps, send_to_account-Keeps) depth 9

  pub reject_member-Keeps : (x : ℕ) (body : List ℕ) → Keeps (reject_member env x body)
  unfolding reject_member
  reject_member-Keeps x body = search (keeps, with_actor_and_id-Keeps, rejected-Keeps) depth 9

  cancelled-Keeps : (x : ℕ) (r : Clan × ClanApplicant) → Keeps (cancelled env x r)
  unfolding cancelled
  cancelled-Keeps x (clan, applicant) = search (keeps, broadcast_reviewers-Keeps) depth 9

  pub cancel_join-Keeps : (x : ℕ) (body : List ℕ) → Keeps (cancel_join env x body)
  unfolding cancel_join
  cancel_join-Keeps x body = search (keeps, cancelled-Keeps) depth 9

  pub kick_out-Keeps : (x : ℕ) (body : List ℕ) → Keeps (kick_out env x body)
  unfolding kick_out
  kick_out-Keeps x body = search (keeps, with_actor_and_id-Keeps, announce_departure-Keeps) depth 9

  pub leave_clan-Keeps : (x : ℕ) (body : List ℕ) → Keeps (leave_clan env x body)
  unfolding leave_clan
  leave_clan-Keeps x body = search (keeps, announce_departure-Keeps) depth 9

  repositioned-Keeps : (x : ℕ) (r : Clan × ClanMember) → Keeps (repositioned env x r)
  unfolding repositioned
  repositioned-Keeps x (clan, member) = search (keeps, broadcast_clan-Keeps) depth 9

  pub set_position-Keeps : (x : ℕ) (body : List ℕ) → Keeps (set_position env x body)
  unfolding set_position
  set_position-Keeps x body = search (keeps, repositioned-Keeps) depth 9

  handed_over-Keeps : (x : ℕ) (r : Clan × ClanMember × ClanMember) → Keeps (handed_over env x r)
  unfolding handed_over
  handed_over-Keeps x (clan, successor, previous) = search (keeps, broadcast_clan-Keeps) depth 9

  pub hand_over-Keeps : (x : ℕ) (body : List ℕ) → Keeps (hand_over env x body)
  unfolding hand_over
  hand_over-Keeps x body = search (keeps, with_actor_and_id-Keeps, handed_over-Keeps) depth 9
