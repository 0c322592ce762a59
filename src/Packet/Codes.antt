-- ===== src/Packet/Codes.antt =====
-- StaticLib1/PacketHeader.h: the numbers of the packet types. The enum has the underlying type Int64, so a
-- type that comes over the wire may be any number.
use graduation_server.Common.{ℕ}

abbrev pub e_c_req_exit : ℕ
e_c_req_exit = 128

abbrev pub e_s_ans_exit : ℕ
e_s_ans_exit = 129

abbrev pub e_i_notify_terminal : ℕ
e_i_notify_terminal = 130

abbrev pub e_c_notify_heartbeat : ℕ
e_c_notify_heartbeat = 131

abbrev pub e_c_req_id_pw : ℕ
e_c_req_id_pw = 132

abbrev pub e_s_ans_id_pw_fail : ℕ
e_s_ans_id_pw_fail = 133

abbrev pub e_s_ans_id_pw_success : ℕ
e_s_ans_id_pw_success = 134

abbrev pub e_i_db_req_id_pw : ℕ
e_i_db_req_id_pw = 135

abbrev pub e_i_db_ans_id_pw : ℕ
e_i_db_ans_id_pw = 136

abbrev pub e_i_chtting_notify_id : ℕ
e_i_chtting_notify_id = 137

abbrev pub e_i_db_req_load_data : ℕ
e_i_db_req_load_data = 138

abbrev pub e_i_db_ans_parse_data : ℕ
e_i_db_ans_parse_data = 139

abbrev pub e_i_login_notify_id_loaded : ℕ
e_i_login_notify_id_loaded = 140

abbrev pub e_c_req_regist_chatting_name : ℕ
e_c_req_regist_chatting_name = 141

abbrev pub e_c_req_chatting : ℕ
e_c_req_chatting = 142

abbrev pub e_s_ans_chatting : ℕ
e_s_ans_chatting = 143

abbrev pub e_c_req_lobby_info : ℕ
e_c_req_lobby_info = 144

abbrev pub e_s_ans_lobby_info : ℕ
e_s_ans_lobby_info = 145

abbrev pub e_c_req_enter_room : ℕ
e_c_req_enter_room = 146

abbrev pub e_s_ans_enter_room : ℕ
e_s_ans_enter_room = 147

abbrev pub e_s_notify_server_ip : ℕ
e_s_notify_server_ip = 148

abbrev pub e_c_req_player_move : ℕ
e_c_req_player_move = 149

abbrev pub e_i_user_info : ℕ
e_i_user_info = 150

abbrev pub e_s_ans_player_move : ℕ
e_s_ans_player_move = 151

abbrev pub e_c_req_fire_bullet : ℕ
e_c_req_fire_bullet = 152

abbrev pub e_s_ans_fire_bullet : ℕ
e_s_ans_fire_bullet = 153

abbrev pub e_c_req_make_enemy : ℕ
e_c_req_make_enemy = 154

abbrev pub e_s_ans_make_enemy : ℕ
e_s_ans_make_enemy = 155

abbrev pub e_c_req_enemy_explosion : ℕ
e_c_req_enemy_explosion = 156

abbrev pub e_s_ans_enemy_explosion : ℕ
e_s_ans_enemy_explosion = 157

abbrev pub e_c_req_make_boss : ℕ
e_c_req_make_boss = 158

abbrev pub e_s_ans_make_boss : ℕ
e_s_ans_make_boss = 159

abbrev pub e_c_req_boss_explosion : ℕ
e_c_req_boss_explosion = 160

abbrev pub e_s_ans_boss_explosion : ℕ
e_s_ans_boss_explosion = 161

abbrev pub e_i_initialize_roommember : ℕ
e_i_initialize_roommember = 162

abbrev pub e_s_req_change_scene : ℕ
e_s_req_change_scene = 163

abbrev pub e_s_req_on_game : ℕ
e_s_req_on_game = 164
