-- ===== src/Game/Open/Table.antt =====
-- Every handler that is registered keeps the open rooms, and so does all that happens on the server.
use fear_online_server.Prelude.{ℕ, List, [], ◌∷◌, All, ◌==◌, Bool-cases, inl, inr}
use fear_online_server.Prelude.NatMap.{put}
use fear_online_server.Game.{Env}
use fear_online_server.Game.Table.{
  Served, ignored, handle_all, handle_groups, static_responses, login_handlers, lobby_handlers,
  item_handlers, clan_handlers, friend_handlers, chat_handlers, action_handlers, registered,
  handlers,
}
use fear_online_server.Game.Open.Keeps.{Keeps, pure-Keeps}
use fear_online_server.Game.Open.Clans.{
  accept_member-Keeps, cancel_join-Keeps, delete_clan-Keeps, hand_over-Keeps, kick_out-Keeps,
  leave_clan-Keeps, reject_member-Keeps, set_position-Keeps,
}
use fear_online_server.Game.Open.Founding.{
  change_clan_mark-Keeps, check_mark-Keeps, check_name-Keeps, clan_chat-Keeps, create_clan-Keeps,
  join_clan-Keeps, search_name-Keeps,
}
use fear_online_server.Game.Open.Items.{
  break_custom-Keeps, buy_custom_request-Keeps, buy_request-Keeps, craft_request-Keeps,
  equip_custom-Keeps, equip_request-Keeps, gear_break-Keeps, gear_equip-Keeps, perk_break-Keeps,
  perk_equip-Keeps, perk_increase_slot-Keeps,
}
use fear_online_server.Game.Open.Login.{
  aeria_auth-Keeps, aeria_launcher-Keeps, check_credential-Keeps, create_credential-Keeps,
  game_action-Keeps, item_login-Keeps, join_channel-Keeps, login-Keeps, map_quest_login-Keeps,
  request_channel_list-Keeps,
}
use fear_online_server.Game.Open.Matches.{
  begin_round-Keeps, death-Keeps, game_start-Keeps, ready-Keeps, time_out-Keeps,
}
use fear_online_server.Game.Open.Playing.{
  change_weapon-Keeps, check_respawn-Keeps, check_respawn_instant-Keeps, connect_server-Keeps,
  dedi_user_ping-Keeps, hit_count-Keeps, load_complete-Keeps, load_percent-Keeps, match_leave-Keeps,
  match_start-Keeps, respawn-Keeps, time_start-Keeps, user_equip-Keeps,
}
use fear_online_server.Game.Open.Rooms.{
  clan_room_list-Keeps, create_room-Keeps, join_lobby-Keeps, join_room-Keeps, leave_lobby-Keeps,
  leave_room-Keeps, lobby_list-Keeps, lobby_user_list-Keeps, room_list-Keeps,
}
use fear_online_server.Game.Open.Social.{
  accept_friend-Keeps, ask_friend-Keeps, chat_all-Keeps, chat_clan-Keeps, delete_friend-Keeps,
  friend_login-Keeps, invite_friend-Keeps, reject_friend-Keeps, whisper-Keeps,
}

-- A registered handler, on any session and body.
abbrev pub KeepsServed : {S : Type 0} → ℕ × Served S → Type 0
KeepsServed (id, f) = (x : ℕ) (body : List ℕ) → Keeps (f x body)

module _ {S : Type 0} where
  ignored-Keeps : (x : ℕ) (body : List ℕ) → Keeps {S = S} (ignored x body)
  ignored-Keeps x body = pure-Keeps tt

  put-Keeps :
      (id : ℕ) (f : Served S) (entries : List (ℕ × Served S))
      → KeepsServed (id, f)
      → All KeepsServed entries
      → All KeepsServed (put id f entries)
  put-Keeps id f [] h k = (h, tt)
  put-Keeps id f ((j, g) ∷ entries) h (k, ks) = elim (Bool-cases (j == id)) [
    | inl q ↦ rw q (h, ks)
    | inr q ↦ rw q (k, put-Keeps id f entries h ks)
  ]

  handle_all-Keeps :
      (entries hs : List (ℕ × Served S))
      → All KeepsServed entries
      → All KeepsServed hs
      → All KeepsServed (handle_all entries hs)
  handle_all-Keeps [] hs k ks = ks
  handle_all-Keeps ((id, f) ∷ entries) hs (h, k) ks =
      handle_all-Keeps entries (put id f hs) k (put-Keeps id f hs h ks)

  handle_groups-Keeps :
      (groups : List (List (ℕ × Served S))) (hs : List (ℕ × Served S))
      → All (All KeepsServed) groups
      → All KeepsServed hs
      → All KeepsServed (handle_groups groups hs)
  handle_groups-Keeps [] hs k ks = ks
  handle_groups-Keeps (entries ∷ groups) hs (h, k) ks =
      handle_groups-Keeps groups (handle_all entries hs) k (handle_all-Keeps entries hs h ks)

module _ {S : Type 0} (env : Env S) where
  login_handlers-Keeps : All KeepsServed (login_handlers env)
  login_handlers-Keeps = (
    aeria_auth-Keeps env,
    (
      aeria_launcher-Keeps env,
      (
        create_credential-Keeps env,
        (
          check_credential-Keeps env,
          (
            request_channel_list-Keeps env,
            (
              join_channel-Keeps env,
              (login-Keeps env, (item_login-Keeps env, (map_quest_login-Keeps env, tt))),
            ),
          ),
        ),
      ),
    ),
  )

  lobby_handlers-Keeps : All KeepsServed (lobby_handlers env)
  lobby_handlers-Keeps = (
    join_lobby-Keeps env,
    (
      leave_lobby-Keeps env,
      (
        lobby_list-Keeps env,
        (
          room_list-Keeps env,
          (
            clan_room_list-Keeps env,
            (
              lobby_user_list-Keeps env,
              (
                create_room-Keeps env,
                (
                  leave_room-Keeps env,
                  (
                    ready-Keeps env,
                    (
                      join_room-Keeps env,
                      (
                        game_start-Keeps env,
                        (
                          connect_server-Keeps env,
                          (
                            match_start-Keeps env,
                            (
                              load_percent-Keeps env,
                              (
                                load_complete-Keeps env,
                                (
                                  time_start-Keeps env,
                                  (
                                    begin_round-Keeps,
                                    (
                                      check_respawn-Keeps env,
                                      (
                                        check_respawn_instant-Keeps env,
                                        (
                                          respawn-Keeps env,
                                          (
                                            death-Keeps,
                                            (
                                              time_out-Keeps,
                                              (
                                                dedi_user_ping-Keeps env,
                                                (
                                                  hit_count-Keeps env,
                                                  (
                                                    match_leave-Keeps env,
                                                    (
                                                      match_leave-Keeps env,
                                                      (
                                                        user_equip-Keeps env,
                                                        (
                                                          change_weapon-Keeps env,
                                                          (room_list-Keeps env, tt),
                                                        ),
                                                      ),
                                                    ),
                                                  ),
                                                ),
                                              ),
                                            ),
                                          ),
                                        ),
                                      ),
                                    ),
                                  ),
                                ),
                              ),
                            ),
                          ),
                        ),
                      ),
                    ),
                  ),
                ),
              ),
            ),
          ),
        ),
      ),
    ),
  )

  item_handlers-Keeps : All KeepsServed (item_handlers env)
  item_handlers-Keeps = (
    equip_request-Keeps env,
    (
      buy_request-Keeps env,
      (
        craft_request-Keeps env,
        (
          buy_custom_request-Keeps env,
          (
            equip_custom-Keeps env,
            (
              break_custom-Keeps env,
              (
                gear_equip-Keeps env,
                (
                  gear_break-Keeps env,
                  (
                    perk_equip-Keeps env,
                    (perk_break-Keeps env, (perk_increase_slot-Keeps env, tt)),
                  ),
                ),
              ),
            ),
          ),
        ),
      ),
    ),
  )

  clan_handlers-Keeps : All KeepsServed (clan_handlers env)
  clan_handlers-Keeps = (
    search_name-Keeps env,
    (
      check_name-Keeps env,
      (
        create_clan-Keeps env,
        (
          join_clan-Keeps env,
          (
            clan_chat-Keeps env,
            (
              delete_clan-Keeps env,
              (
                cancel_join-Keeps env,
                (
                  accept_member-Keeps env,
                  (
                    reject_member-Keeps env,
                    (
                      kick_out-Keeps env,
                      (
                        leave_clan-Keeps env,
                        (
                          hand_over-Keeps env,
                          (
                            set_position-Keeps env,
                            (
                              check_mark-Keeps env,
                              (
                                change_clan_mark-Keeps env,
                                (
                                  ignored-Keeps,
                                  (ignored-Keeps, (ignored-Keeps, (ignored-Keeps, tt))),
                                ),
                              ),
                            ),
                          ),
                        ),
                      ),
                    ),
                  ),
                ),
              ),
            ),
          ),
        ),
      ),
    ),
  )

  friend_handlers-Keeps : All KeepsServed (friend_handlers env)
  friend_handlers-Keeps = (
    friend_login-Keeps env,
    (
      ask_friend-Keeps env,
      (
        accept_friend-Keeps env,
        (reject_friend-Keeps env, (delete_friend-Keeps env, (invite_friend-Keeps env, tt))),
      ),
    ),
  )

  chat_handlers-Keeps : All KeepsServed (chat_handlers env)
  chat_handlers-Keeps = (chat_all-Keeps env, (chat_clan-Keeps env, (whisper-Keeps env, tt)))

  action_handlers-Keeps :
      (responses : List (ℕ × ℕ × ℕ)) → All KeepsServed (action_handlers env responses)
  action_handlers-Keeps [] = tt
  action_handlers-Keeps ((request, answer, destination) ∷ responses) =
      (game_action-Keeps env answer destination, action_handlers-Keeps responses)

  registered-Keeps : All (All KeepsServed) (registered env)
  registered-Keeps = (
    login_handlers-Keeps,
    (
      lobby_handlers-Keeps,
      (
        item_handlers-Keeps,
        (
          clan_handlers-Keeps,
          (
            friend_handlers-Keeps,
            (chat_handlers-Keeps, (action_handlers-Keeps static_responses, tt)),
          ),
        ),
      ),
    ),
  )

  pub handlers-Keeps : All KeepsServed (handlers env)
  unfolding handlers
  handlers-Keeps = handle_groups-Keeps (registered env) [] registered-Keeps tt
