-- ===== src/Game/Launcher.antt =====
-- A credential that one connection asks for and another one shows.
use fear_online_server.Game.Ids.{rmi_answer_check_credential, rmi_answer_create_credential}
use fear_online_server.Prelude.{
  ℕ, ◌≡◌, refl, ◌∙◌, ap, sym, String, Bool, true, false, ltb, ◌==◌, ◌=ₛ◌, eq_iff, if◌then◌else◌,
  arith, List, ◌++◌, length, length-append, take, take-length_append, Option, none, some,
}
use fear_online_server.Prelude.NatMap.{value_at, value_at-put}
use fear_online_server.Models.Player.{Player}
use fear_online_server.Repositories.Table.{lookup, insert, lookup-insert}
use fear_online_server.Wire.Rmi.{Message}
use fear_online_server.Server.{Session, send_plain}
use fear_online_server.Identity.{Credentials, resolve_player, issue, redeem, bind_player}
use fear_online_server.Game.{World, Env, Act, then_act, ◌>>◌, sent_by, send_to, send}
use fear_online_server.Game.Start.{no_reason}
use fear_online_server.Game.Login.{
  guid_of, bind_account, send_channel_list, create_credential, check_credential,
}

-- What a message leaves alone.
abbrev Same : {S : Type 0} → World S → World S → Type 0
Same w v = (v.places ≡ w.places) × (v.credentials ≡ w.credentials)

same_key :
    (k : String) (p : Player) (old : Credentials)
    → (if k =ₛ k then some p else lookup k old) ≡ some p
same_key k p old = ground (arith, eq_iff k k)

redeem-issue_credential :
    (hex : List ℕ → String) (old : Credentials) (guid token : List ℕ) (p : Player)
    (new : Credentials)
    → new ≡ issue hex old guid p
    → token ≡ guid
    → redeem hex new token ≡ some p
unfolding issue redeem
redeem-issue_credential hex old guid token p new e same =
    ap (λ c. lookup (hex token) c) e
    ∙ (ap (λ g. lookup (hex g) (insert (hex guid) p old)) same
        ∙ (lookup-insert (hex guid) (hex guid) p old ∙ same_key (hex guid) p old))

module _ {S : Type 0} where
  sent_by-Same : (x : ℕ) (r : Bool × Session) (w : World S) → Same w (sent_by x r w).1
  sent_by-Same x (true, s) w = (refl, refl)
  sent_by-Same x (false, s) w = (refl, refl)

  send_to-Same :
      (x : ℕ) (msg : Message) (found : Option Session) (w : World S)
      → Same w (send_to x msg found w).1
  send_to-Same x msg none w = (refl, refl)
  send_to-Same x msg (some s) w = sent_by-Same x (send_plain msg s) w

  send-Same : (x id : ℕ) (body : List ℕ) (w : World S) → Same w (send x id body w).1
  unfolding send
  send-Same x id body w =
      send_to-Same x (record { id = id; body = body }) (value_at x w.connections) w

  then-places :
      (r : Option (Unit {0})) (w : World S) (n : Act S (Unit {0}))
      → ((v : World S) → Same v (n v).1)
      → (then_act r (λ u. n) w).1.places ≡ w.places
  then-places none w n h = refl
  then-places (some u) w n h = (h w).0

  module _ (env : Env S) where
    send_channel_list-Same : (x : ℕ) (w : World S) → Same w (send_channel_list env x w).1
    unfolding send_channel_list
    send_channel_list-Same x w = send-Same x _ _ w

    -- What is sent after a session has been bound to an account.
    welcomed-places :
        (y : ℕ) (w : World S)
        → ((send y rmi_answer_check_credential no_reason >> send_channel_list env y) w).1.places
          ≡ w.places
    welcomed-places y w =
        then-places (send y rmi_answer_check_credential no_reason w).0
          (send y rmi_answer_check_credential no_reason w).1 (send_channel_list env y)
          (send_channel_list-Same y)
        ∙ (send-Same y rmi_answer_check_credential no_reason w).0

    bound_account :
        (y : ℕ) (p : Player) (w : World S)
        → resolve_player (bind_account env y p w).places.states y ≡ some p
    unfolding bind_account bind_player resolve_player
    bound_account y p w =
        let same : (y == y) ≡ true = ground arith in
        rw
          (
            value_at-put y y (record { player = p; room = none; room_user = 0; channel = 0 })
                w.places.states,
            same,
          )
          refl

    checked-binds :
        (y : ℕ) (body : List ℕ) (p : Player) (w : World S)
        → ltb (length body) 16 ≡ false
        → redeem env.hex w.credentials (take 16 body) ≡ some p
        → resolve_player (check_credential env y body w).1.places.states y ≡ some p
    unfolding check_credential
    checked-binds y body p w long known =
        rw (long, known)
          (ap (λ q. resolve_player q.states y) (welcomed-places y (bind_account env y p w))
            ∙ bound_account y p w)

    created-credentials :
        (x : ℕ) (body : List ℕ) (p : Player) (w : World S)
        → resolve_player w.places.states x ≡ some p
        → length (guid_of (value_at x w.connections)) ≡ 16
        → (create_credential env x body w).1.credentials
          ≡ issue env.hex w.credentials (guid_of (value_at x w.connections)) p
    unfolding create_credential
    created-credentials x body p w account size =
        let whole : (length (guid_of (value_at x w.connections)) == 16) ≡ true = rw size refl in
        rw (account, whole) (send-Same x rmi_answer_create_credential _ _).1

    -- A session of an account that asks for a credential, on a connection with a GUID of 16 bytes: whatever
    -- session shows these bytes next, and whatever bytes follow them, that session then has the account.
    pub check-create :
        (x y : ℕ) (body rest : List ℕ) (p : Player) (w : World S)
        → resolve_player w.places.states x ≡ some p
        → length (guid_of (value_at x w.connections)) ≡ 16
        → let created = (create_credential env x body w).1 in
          let checked =
            check_credential env y (guid_of (value_at x w.connections) ++ rest) created in
          resolve_player checked.1.places.states y ≡ some p
    check-create x y body rest p w account size =
        let guid = guid_of (value_at x w.connections) in
        let first : take 16 (guid ++ rest) ≡ guid =
          ap (λ n. take n (guid ++ rest)) (sym size) ∙ take-length_append guid rest in
        checked-binds y (guid ++ rest) p (create_credential env x body w).1
          (ground (arith, size, length-append guid rest))
          (redeem-issue_credential env.hex w.credentials guid (take 16 (guid ++ rest)) p
            (create_credential env x body w).1.credentials
            (created-credentials x body p w account size) first)
