-- ===== src/Game/Ids.antt =====
-- The numbers of the messages, as the files of server/internal/proudnet declare them.
use fear_online_server.Prelude.{ℕ}

abbrev pub rmi_request_aeria_auth : ℕ
rmi_request_aeria_auth = 0x7534

abbrev pub rmi_answer_aeria_auth : ℕ
rmi_answer_aeria_auth = 0x756A

abbrev pub rmi_request_aeria_launcher : ℕ
rmi_request_aeria_launcher = 0x7535

abbrev pub rmi_answer_aeria_launcher : ℕ
rmi_answer_aeria_launcher = 0x756C

abbrev pub rmi_create_credential : ℕ
rmi_create_credential = 0x7532

abbrev pub rmi_answer_create_credential : ℕ
rmi_answer_create_credential = 0x7565

abbrev pub rmi_check_credential : ℕ
rmi_check_credential = 0x7533

abbrev pub rmi_answer_check_credential : ℕ
rmi_answer_check_credential = 0x7567

abbrev pub rmi_request_channel_list : ℕ
rmi_request_channel_list = 0x88B9

abbrev pub rmi_answer_channel_list : ℕ
rmi_answer_channel_list = 0x891D

abbrev pub rmi_send_channel_list : ℕ
rmi_send_channel_list = 0x891F

abbrev pub rmi_request_channel_join : ℕ
rmi_request_channel_join = 0x88BA

abbrev pub rmi_answer_channel_join : ℕ
rmi_answer_channel_join = 0x8920

abbrev pub rmi_request_chat_clan : ℕ
rmi_request_chat_clan = 0x9472

abbrev pub rmi_answer_chat_all_ok : ℕ
rmi_answer_chat_all_ok = 0x94DA

abbrev pub rmi_answer_chat_all_fail : ℕ
rmi_answer_chat_all_fail = 0x94DB

abbrev pub rmi_answer_chat_clan_ok : ℕ
rmi_answer_chat_clan_ok = 0x94DC

abbrev pub rmi_answer_chat_clan_fail : ℕ
rmi_answer_chat_clan_fail = 0x94DD

abbrev pub rmi_answer_chat_user_ok : ℕ
rmi_answer_chat_user_ok = 0x94DE

abbrev pub rmi_answer_chat_user_fail : ℕ
rmi_answer_chat_user_fail = 0x94DF

abbrev pub rmi_notify_chat : ℕ
rmi_notify_chat = 0x94D5

abbrev pub rmi_request_search_clan_name : ℕ
rmi_request_search_clan_name = 0xA414

abbrev pub rmi_answer_search_name_ok : ℕ
rmi_answer_search_name_ok = 0xA61A

abbrev pub rmi_answer_search_name_fail : ℕ
rmi_answer_search_name_fail = 0xA61B

abbrev pub rmi_request_check_clan_name : ℕ
rmi_request_check_clan_name = 0xA416

abbrev pub rmi_answer_check_name_ok : ℕ
rmi_answer_check_name_ok = 0xA61E

abbrev pub rmi_answer_check_name_fail : ℕ
rmi_answer_check_name_fail = 0xA61F

abbrev pub rmi_request_create_clan : ℕ
rmi_request_create_clan = 0xA417

abbrev pub rmi_answer_create_ok : ℕ
rmi_answer_create_ok = 0xA620

abbrev pub rmi_answer_create_fail : ℕ
rmi_answer_create_fail = 0xA621

abbrev pub rmi_request_join_clan : ℕ
rmi_request_join_clan = 0xA41E

abbrev pub rmi_answer_join_ok : ℕ
rmi_answer_join_ok = 0xA631

abbrev pub rmi_answer_join_fail : ℕ
rmi_answer_join_fail = 0xA632

abbrev pub rmi_request_delete_clan : ℕ
rmi_request_delete_clan = 0xA418

abbrev pub rmi_request_change_clan_name : ℕ
rmi_request_change_clan_name = 0xA419

abbrev pub rmi_request_search_clan_master : ℕ
rmi_request_search_clan_master = 0xA415

abbrev pub rmi_request_clan_chat : ℕ
rmi_request_clan_chat = 0xA427

abbrev pub rmi_request_login_clan_record : ℕ
rmi_request_login_clan_record = 0xA428

abbrev pub rmi_send_clan_info : ℕ
rmi_send_clan_info = 0xA60B

abbrev pub rmi_notify_user_clan_info : ℕ
rmi_notify_user_clan_info = 0xA074

abbrev pub rmi_request_join_cancel : ℕ
rmi_request_join_cancel = 0xA41F

abbrev pub rmi_answer_join_cancel_ok : ℕ
rmi_answer_join_cancel_ok = 0xA633

abbrev pub rmi_answer_join_cancel_fail : ℕ
rmi_answer_join_cancel_fail = 0xA634

abbrev pub rmi_request_accept_member : ℕ
rmi_request_accept_member = 0xA420

abbrev pub rmi_answer_accept_member_ok : ℕ
rmi_answer_accept_member_ok = 0xA635

abbrev pub rmi_answer_accept_fail : ℕ
rmi_answer_accept_fail = 0xA636

abbrev pub rmi_request_reject_member : ℕ
rmi_request_reject_member = 0xA421

abbrev pub rmi_answer_reject_member_ok : ℕ
rmi_answer_reject_member_ok = 0xA637

abbrev pub rmi_answer_reject_fail : ℕ
rmi_answer_reject_fail = 0xA638

abbrev pub rmi_request_kick_out_member : ℕ
rmi_request_kick_out_member = 0xA422

abbrev pub rmi_answer_kick_out_ok : ℕ
rmi_answer_kick_out_ok = 0xA639

abbrev pub rmi_answer_kick_out_fail : ℕ
rmi_answer_kick_out_fail = 0xA63A

abbrev pub rmi_request_get_out : ℕ
rmi_request_get_out = 0xA423

abbrev pub rmi_answer_get_out_ok : ℕ
rmi_answer_get_out_ok = 0xA63B

abbrev pub rmi_answer_get_out_fail : ℕ
rmi_answer_get_out_fail = 0xA63C

abbrev pub rmi_request_change_master : ℕ
rmi_request_change_master = 0xA424

abbrev pub rmi_answer_change_master_ok : ℕ
rmi_answer_change_master_ok = 0xA63D

abbrev pub rmi_answer_change_master_no : ℕ
rmi_answer_change_master_no = 0xA63E

abbrev pub rmi_request_change_position : ℕ
rmi_request_change_position = 0xA425

abbrev pub rmi_answer_change_pos_ok : ℕ
rmi_answer_change_pos_ok = 0xA63F

abbrev pub rmi_answer_change_pos_fail : ℕ
rmi_answer_change_pos_fail = 0xA640

abbrev pub rmi_answer_delete_ok : ℕ
rmi_answer_delete_ok = 0xA622

abbrev pub rmi_answer_delete_fail : ℕ
rmi_answer_delete_fail = 0xA623

abbrev pub rmi_send_clear_clan_info : ℕ
rmi_send_clear_clan_info = 0xA60C

abbrev pub rmi_notify_delete_member : ℕ
rmi_notify_delete_member = 0xA614

abbrev pub rmi_send_clear_member : ℕ
rmi_send_clear_member = 0xA615

abbrev pub rmi_notify_member_position : ℕ
rmi_notify_member_position = 0xA641

abbrev pub rmi_answer_clan_chat_ok : ℕ
rmi_answer_clan_chat_ok = 0xA64D

abbrev pub rmi_answer_clan_chat_fail : ℕ
rmi_answer_clan_chat_fail = 0xA64E

abbrev pub rmi_notify_clan_chat : ℕ
rmi_notify_clan_chat = 0xA64F

abbrev pub rmi_request_chat_all : ℕ
rmi_request_chat_all = 0x9471

abbrev pub rmi_request_chat_user : ℕ
rmi_request_chat_user = 0x9473

abbrev pub rmi_request_chat_notice : ℕ
rmi_request_chat_notice = 0x9474

abbrev pub rmi_request_check_mark : ℕ
rmi_request_check_mark = 0xA429

abbrev pub rmi_answer_check_mark_ok : ℕ
rmi_answer_check_mark_ok = 0xA653

abbrev pub rmi_answer_check_mark_no : ℕ
rmi_answer_check_mark_no = 0xA654

abbrev pub rmi_request_change_mark : ℕ
rmi_request_change_mark = 0xA42A

abbrev pub rmi_answer_change_mark_ok : ℕ
rmi_answer_change_mark_ok = 0xA655

abbrev pub rmi_answer_change_mark_no : ℕ
rmi_answer_change_mark_no = 0xA656

abbrev pub rmi_notify_clan_mark : ℕ
rmi_notify_clan_mark = 0xA657

abbrev pub rmi_send_member_list : ℕ
rmi_send_member_list = 0xA60F

abbrev pub rmi_notify_member_info : ℕ
rmi_notify_member_info = 0xA610

abbrev pub rmi_notify_member_count : ℕ
rmi_notify_member_count = 0xA642

abbrev pub rmi_send_request_list : ℕ
rmi_send_request_list = 0xA616

abbrev pub rmi_notify_request_info : ℕ
rmi_notify_request_info = 0xA617

abbrev pub rmi_notify_delete_request : ℕ
rmi_notify_delete_request = 0xA618

abbrev pub rmi_send_request_clan_info : ℕ
rmi_send_request_clan_info = 0xA60D

abbrev pub rmi_send_clear_request_info : ℕ
rmi_send_clear_request_info = 0xA60E

abbrev pub rmi_friend_request_login : ℕ
rmi_friend_request_login = 0xA029

abbrev pub rmi_friend_answer_login : ℕ
rmi_friend_answer_login = 0xA05B

abbrev pub rmi_request_friend : ℕ
rmi_request_friend = 0xA02A

abbrev pub rmi_answer_friend_ask_ok : ℕ
rmi_answer_friend_ask_ok = 0xA05F

abbrev pub rmi_answer_friend_ask_fail : ℕ
rmi_answer_friend_ask_fail = 0xA060

abbrev pub rmi_request_friend_accept : ℕ
rmi_request_friend_accept = 0xA02B

abbrev pub rmi_answer_friend_accept_ok : ℕ
rmi_answer_friend_accept_ok = 0xA062

abbrev pub rmi_answer_friend_accept_fail : ℕ
rmi_answer_friend_accept_fail = 0xA063

abbrev pub rmi_request_friend_reject : ℕ
rmi_request_friend_reject = 0xA02C

abbrev pub rmi_answer_friend_reject_ok : ℕ
rmi_answer_friend_reject_ok = 0xA065

abbrev pub rmi_answer_friend_reject_fail : ℕ
rmi_answer_friend_reject_fail = 0xA066

abbrev pub rmi_request_friend_delete : ℕ
rmi_request_friend_delete = 0xA02D

abbrev pub rmi_answer_friend_delete_ok : ℕ
rmi_answer_friend_delete_ok = 0xA067

abbrev pub rmi_answer_friend_delete_fail : ℕ
rmi_answer_friend_delete_fail = 0xA068

abbrev pub rmi_send_friend_list : ℕ
rmi_send_friend_list = 0xA05D

abbrev pub rmi_send_request_friend_list : ℕ
rmi_send_request_friend_list = 0xA05E

abbrev pub rmi_send_request_friend_info : ℕ
rmi_send_request_friend_info = 0xA061

abbrev pub rmi_send_friend_info : ℕ
rmi_send_friend_info = 0xA064

abbrev pub rmi_send_delete_friend : ℕ
rmi_send_delete_friend = 0xA069

abbrev pub rmi_request_friend_invite : ℕ
rmi_request_friend_invite = 0xA02E

abbrev pub rmi_answer_friend_invite_ok : ℕ
rmi_answer_friend_invite_ok = 0xA06A

abbrev pub rmi_answer_friend_invite_no : ℕ
rmi_answer_friend_invite_no = 0xA06B

abbrev pub rmi_send_friend_invite : ℕ
rmi_send_friend_invite = 0xA06C

abbrev pub rmi_request_user_equip : ℕ
rmi_request_user_equip = 0x909D

abbrev pub rmi_answer_user_equip_ok : ℕ
rmi_answer_user_equip_ok = 0x9263

abbrev pub rmi_answer_user_equip_fail : ℕ
rmi_answer_user_equip_fail = 0x9264

abbrev pub rmi_notify_user_equip_list : ℕ
rmi_notify_user_equip_list = 0x9223

abbrev pub rmi_notify_user_equip_info : ℕ
rmi_notify_user_equip_info = 0x9224

abbrev pub rmi_notify_team_equip_list : ℕ
rmi_notify_team_equip_list = 0x921F

abbrev pub rmi_request_change_weapon : ℕ
rmi_request_change_weapon = 0x909A

abbrev pub rmi_answer_change_weapon_ok : ℕ
rmi_answer_change_weapon_ok = 0x925B

abbrev pub rmi_answer_change_weapon_fail : ℕ
rmi_answer_change_weapon_fail = 0x925C

abbrev pub rmi_notify_user_weapon_info : ℕ
rmi_notify_user_weapon_info = 0x925D

abbrev pub rmi_request_check_respawn : ℕ
rmi_request_check_respawn = 0x908F

abbrev pub rmi_request_respawn_instant : ℕ
rmi_request_respawn_instant = 0x9090

abbrev pub rmi_request_respawn : ℕ
rmi_request_respawn = 0x9091

abbrev pub rmi_request_time_out : ℕ
rmi_request_time_out = 0x9092

abbrev pub rmi_request_death : ℕ
rmi_request_death = 0x9093

abbrev pub rmi_request_dedi_user_ping : ℕ
rmi_request_dedi_user_ping = 0x909C

abbrev pub rmi_request_hit_count : ℕ
rmi_request_hit_count = 0x9028

abbrev pub rmi_answer_hit_count_ok : ℕ
rmi_answer_hit_count_ok = 0x905B

abbrev pub rmi_notify_user_result_list : ℕ
rmi_notify_user_result_list = 0x9221

abbrev pub rmi_notify_round_end : ℕ
rmi_notify_round_end = 0x922B

abbrev pub rmi_notify_game_end : ℕ
rmi_notify_game_end = 0x922C

abbrev pub rmi_answer_check_respawn_ok : ℕ
rmi_answer_check_respawn_ok = 0x923E

abbrev pub rmi_answer_respawn_instant_ok : ℕ
rmi_answer_respawn_instant_ok = 0x9240

abbrev pub rmi_answer_respawn_ok : ℕ
rmi_answer_respawn_ok = 0x9242

abbrev pub rmi_notify_respawn : ℕ
rmi_notify_respawn = 0x9244

abbrev pub rmi_answer_time_out_ok : ℕ
rmi_answer_time_out_ok = 0x9245

abbrev pub rmi_answer_death_ok : ℕ
rmi_answer_death_ok = 0x9247

abbrev pub rmi_notify_death : ℕ
rmi_notify_death = 0x9249

abbrev pub rmi_answer_dedi_user_ping_ok : ℕ
rmi_answer_dedi_user_ping_ok = 0x9261

abbrev pub rmi_answer_connect_server : ℕ
rmi_answer_connect_server = 0x9025

abbrev pub rmi_request_match_start : ℕ
rmi_request_match_start = 0x9089

abbrev pub rmi_answer_match_start_ok : ℕ
rmi_answer_match_start_ok = 0x9232

abbrev pub rmi_answer_match_start_fail : ℕ
rmi_answer_match_start_fail = 0x9233

abbrev pub rmi_notify_map_info : ℕ
rmi_notify_map_info = 0x9219

abbrev pub rmi_notify_game_info : ℕ
rmi_notify_game_info = 0x921A

abbrev pub rmi_notify_in_game_item : ℕ
rmi_notify_in_game_item = 0x921B

abbrev pub rmi_notify_game_user_list : ℕ
rmi_notify_game_user_list = 0x921D

abbrev pub rmi_notify_user_function_list : ℕ
rmi_notify_user_function_list = 0x9225

abbrev pub rmi_request_load_percent : ℕ
rmi_request_load_percent = 0x908B

abbrev pub rmi_request_load_complete : ℕ
rmi_request_load_complete = 0x908C

abbrev pub rmi_answer_load_percent_ok : ℕ
rmi_answer_load_percent_ok = 0x9236

abbrev pub rmi_answer_load_complete_ok : ℕ
rmi_answer_load_complete_ok = 0x9238

abbrev pub rmi_notify_load_percent : ℕ
rmi_notify_load_percent = 0x922F

abbrev pub rmi_notify_user_load_complete : ℕ
rmi_notify_user_load_complete = 0x9230

abbrev pub rmi_notify_load_complete : ℕ
rmi_notify_load_complete = 0x9231

abbrev pub rmi_request_room_game_leave : ℕ
rmi_request_room_game_leave = 0x9027

abbrev pub rmi_request_game_leave : ℕ
rmi_request_game_leave = 0x90A2

abbrev pub rmi_request_time_start : ℕ
rmi_request_time_start = 0x908D

abbrev pub rmi_request_begin_round : ℕ
rmi_request_begin_round = 0x908E

abbrev pub rmi_answer_time_start_ok : ℕ
rmi_answer_time_start_ok = 0x923A

abbrev pub rmi_answer_begin_round_ok : ℕ
rmi_answer_begin_round_ok = 0x923C

abbrev pub rmi_answer_begin_round_fail : ℕ
rmi_answer_begin_round_fail = 0x923D

abbrev pub rmi_notify_round_begin : ℕ
rmi_notify_round_begin = 0x922A

abbrev pub rmi_request_game_start : ℕ
rmi_request_game_start = 0x8CA7

abbrev pub rmi_answer_game_start_ok : ℕ
rmi_answer_game_start_ok = 0x8D1E

abbrev pub rmi_answer_game_start_fail : ℕ
rmi_answer_game_start_fail = 0x8D1F

abbrev pub rmi_notify_game_start : ℕ
rmi_notify_game_start = 0x9057

abbrev pub rmi_notify_host_server : ℕ
rmi_notify_host_server = 0x921C

abbrev pub rmi_notify_room_game : ℕ
rmi_notify_room_game = 0x8D09

abbrev pub rmi_request_equip_item : ℕ
rmi_request_equip_item = 0x985C

abbrev pub rmi_send_equip_slot : ℕ
rmi_send_equip_slot = 0x7700

abbrev pub rmi_answer_equip_item : ℕ
rmi_answer_equip_item = 0x98C3

abbrev pub rmi_request_buy_item : ℕ
rmi_request_buy_item = 0x985B

abbrev pub rmi_answer_buy_item : ℕ
rmi_answer_buy_item = 0x98C1

abbrev pub rmi_answer_buy_item_fail : ℕ
rmi_answer_buy_item_fail = 0x98C2

abbrev pub rmi_send_item : ℕ
rmi_send_item = 0x76F8

abbrev pub rmi_send_item_value : ℕ
rmi_send_item_value = 0x76FE

abbrev pub rmi_send_delete_item : ℕ
rmi_send_delete_item = 0x76FA

abbrev pub rmi_request_recipe_item : ℕ
rmi_request_recipe_item = 0x99EC

abbrev pub rmi_answer_recipe_item : ℕ
rmi_answer_recipe_item = 0x9A53

abbrev pub rmi_answer_recipe_item_fail : ℕ
rmi_answer_recipe_item_fail = 0x9A54

abbrev pub rmi_request_buy_custom_item : ℕ
rmi_request_buy_custom_item = 0x9860

abbrev pub rmi_answer_buy_custom_item : ℕ
rmi_answer_buy_custom_item = 0x98CB

abbrev pub rmi_answer_buy_custom_item_fail : ℕ
rmi_answer_buy_custom_item_fail = 0x98CC

abbrev pub rmi_request_equip_custom_item : ℕ
rmi_request_equip_custom_item = 0x9861

abbrev pub rmi_answer_equip_custom_item : ℕ
rmi_answer_equip_custom_item = 0x98CD

abbrev pub rmi_answer_equip_custom_fail : ℕ
rmi_answer_equip_custom_fail = 0x98CE

abbrev pub rmi_request_break_custom_item : ℕ
rmi_request_break_custom_item = 0x9862

abbrev pub rmi_answer_break_custom_item : ℕ
rmi_answer_break_custom_item = 0x98CF

abbrev pub rmi_answer_break_custom_fail : ℕ
rmi_answer_break_custom_fail = 0x98D0

abbrev pub rmi_request_equip_gear_item : ℕ
rmi_request_equip_gear_item = 0x9863

abbrev pub rmi_answer_equip_gear_item : ℕ
rmi_answer_equip_gear_item = 0x98D1

abbrev pub rmi_answer_equip_gear_fail : ℕ
rmi_answer_equip_gear_fail = 0x98D2

abbrev pub rmi_request_break_gear_item : ℕ
rmi_request_break_gear_item = 0x9864

abbrev pub rmi_answer_break_gear_item : ℕ
rmi_answer_break_gear_item = 0x98D3

abbrev pub rmi_answer_break_gear_fail : ℕ
rmi_answer_break_gear_fail = 0x98D4

abbrev pub rmi_request_equip_perk_item : ℕ
rmi_request_equip_perk_item = 0x9AB4

abbrev pub rmi_answer_equip_perk_item : ℕ
rmi_answer_equip_perk_item = 0x9B1B

abbrev pub rmi_answer_equip_perk_fail : ℕ
rmi_answer_equip_perk_fail = 0x9B1C

abbrev pub rmi_request_break_perk_item : ℕ
rmi_request_break_perk_item = 0x9AB5

abbrev pub rmi_answer_break_perk_item : ℕ
rmi_answer_break_perk_item = 0x9B1D

abbrev pub rmi_answer_break_perk_fail : ℕ
rmi_answer_break_perk_fail = 0x9B1E

abbrev pub rmi_request_inc_perk_slot : ℕ
rmi_request_inc_perk_slot = 0x9AB6

abbrev pub rmi_answer_inc_perk_slot : ℕ
rmi_answer_inc_perk_slot = 0x9B1F

abbrev pub rmi_send_slot_list : ℕ
rmi_send_slot_list = 0x76FB

abbrev pub rmi_send_slot : ℕ
rmi_send_slot = 0x76FC

abbrev pub rmi_send_equip_list : ℕ
rmi_send_equip_list = 0x7701

abbrev pub rmi_send_equip : ℕ
rmi_send_equip = 0x7702

abbrev pub rmi_request_lobby_join : ℕ
rmi_request_lobby_join = 0x8AAD

abbrev pub rmi_answer_lobby_join : ℕ
rmi_answer_lobby_join = 0x8B11

abbrev pub rmi_notify_open_map_list : ℕ
rmi_notify_open_map_list = 0x8D2B

abbrev pub rmi_request_lobby_leave : ℕ
rmi_request_lobby_leave = 0x8AAE

abbrev pub rmi_answer_lobby_leave : ℕ
rmi_answer_lobby_leave = 0x8B13

abbrev pub rmi_request_lobby_list : ℕ
rmi_request_lobby_list = 0x8AAF

abbrev pub rmi_answer_lobby_list : ℕ
rmi_answer_lobby_list = 0x8B15

abbrev pub rmi_send_lobby_list : ℕ
rmi_send_lobby_list = 0x8B17

abbrev pub rmi_request_room_join : ℕ
rmi_request_room_join = 0x8CA2

abbrev pub rmi_request_room_list : ℕ
rmi_request_room_list = 0x8AB0

abbrev pub rmi_request_refresh_room_list : ℕ
rmi_request_refresh_room_list = 0x8AB3

abbrev pub rmi_answer_room_list : ℕ
rmi_answer_room_list = 0x8B18

abbrev pub rmi_send_room_list : ℕ
rmi_send_room_list = 0x8B1A

abbrev pub rmi_request_clan_room_list : ℕ
rmi_request_clan_room_list = 0x8AB1

abbrev pub rmi_answer_clan_room_list : ℕ
rmi_answer_clan_room_list = 0x8B22

abbrev pub rmi_send_clan_room_list : ℕ
rmi_send_clan_room_list = 0x8B24

abbrev pub rmi_request_lobby_user_list : ℕ
rmi_request_lobby_user_list = 0x8AB2

abbrev pub rmi_answer_lobby_user_list : ℕ
rmi_answer_lobby_user_list = 0x8B28

abbrev pub rmi_send_lobby_user_list : ℕ
rmi_send_lobby_user_list = 0x8B2A

abbrev pub rmi_request_login : ℕ
rmi_request_login = 0x7595

abbrev pub rmi_answer_login : ℕ
rmi_answer_login = 0x75C7

abbrev pub rmi_notify_character : ℕ
rmi_notify_character = 0x75CD

abbrev pub rmi_notify_record : ℕ
rmi_notify_record = 0x75CE

abbrev pub rmi_item_request_login : ℕ
rmi_item_request_login = 0x76C1

abbrev pub rmi_item_answer_login : ℕ
rmi_item_answer_login = 0x76F3

abbrev pub rmi_send_point : ℕ
rmi_send_point = 0x762F

abbrev pub rmi_send_cash : ℕ
rmi_send_cash = 0x7693

abbrev pub rmi_send_item_list : ℕ
rmi_send_item_list = 0x76F7

abbrev pub rmi_send_equip_slot_list : ℕ
rmi_send_equip_slot_list = 0x76FF

abbrev pub rmi_map_quest_request_login : ℕ
rmi_map_quest_request_login = 0x78B5

abbrev pub rmi_map_quest_answer_login : ℕ
rmi_map_quest_answer_login = 0x78E7

abbrev pub rmi_send_map_quest_list : ℕ
rmi_send_map_quest_list = 0x78E9

abbrev pub rmi_request_room_create : ℕ
rmi_request_room_create = 0x8CA1

abbrev pub rmi_request_room_leave : ℕ
rmi_request_room_leave = 0x8CA3

abbrev pub rmi_notify_open_map_info : ℕ
rmi_notify_open_map_info = 0x8D2C

abbrev pub rmi_notify_room_info : ℕ
rmi_notify_room_info = 0x8D05

abbrev pub rmi_notify_room_map_info : ℕ
rmi_notify_room_map_info = 0x8D06

abbrev pub rmi_send_room_user_list : ℕ
rmi_send_room_user_list = 0x8D0A

abbrev pub rmi_notify_team_list : ℕ
rmi_notify_team_list = 0x8D10

abbrev pub rmi_notify_room_leader : ℕ
rmi_notify_room_leader = 0x8D08

abbrev pub rmi_answer_room_create : ℕ
rmi_answer_room_create = 0x8D12

abbrev pub rmi_answer_room_leave : ℕ
rmi_answer_room_leave = 0x8D16

abbrev pub rmi_answer_room_join_ok : ℕ
rmi_answer_room_join_ok = 0x8D14

abbrev pub rmi_answer_room_join_fail : ℕ
rmi_answer_room_join_fail = 0x8D15

abbrev pub rmi_notify_room_user_info : ℕ
rmi_notify_room_user_info = 0x8D0B

abbrev pub rmi_notify_team_info : ℕ
rmi_notify_team_info = 0x8D11

abbrev pub rmi_request_room_ready : ℕ
rmi_request_room_ready = 0x8CA6

abbrev pub rmi_answer_room_ready : ℕ
rmi_answer_room_ready = 0x8D1C

abbrev pub rmi_notify_state_info : ℕ
rmi_notify_state_info = 0x8D0E
