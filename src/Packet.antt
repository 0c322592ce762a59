-- ===== src/Packet.antt =====
-- StaticLib1/PacketClass.h as a whole (its classes stand in the modules below) and PacketFactory.h.
pub mod Codes
pub mod Wire
pub mod Account
pub mod Notice
pub mod Lobby
pub mod Battle
pub mod Round
use graduation_server.Common.{ℕ, Option, none, some, List, [], ◌∷◌, find}
use graduation_server.Stream.{Stream, Reader, pure, ◌>>=◌}
use Wire.{Field}
use Account.{
  AccountPacket, type_account, encode_account, decode_account, blank_account, fields_account,
}
use Notice.{NoticePacket, type_notice, encode_notice, decode_notice, blank_notice, fields_notice}
use Lobby.{LobbyPacket, type_lobby, encode_lobby, decode_lobby, blank_lobby, fields_lobby}
use Battle.{BattlePacket, type_battle, encode_battle, decode_battle, blank_battle, fields_battle}
use Round.{RoundPacket, type_round, encode_round, decode_round, blank_round, fields_round}
use Account.{
  c_req_exit, s_ans_exit, i_notify_terminal, c_notify_heartbeat, c_req_id_pw, s_ans_id_pw_fail,
  s_ans_id_pw_success, i_db_req_id_pw, i_db_ans_id_pw,
}
use Notice.{i_chtting_notify_id, i_db_req_load_data, i_db_ans_parse_data, i_login_notify_id_loaded}
use Lobby.{
  c_req_regist_chatting_name, c_req_chatting, s_ans_chatting, c_req_lobby_info, s_ans_lobby_info,
  c_req_enter_room, s_ans_enter_room,
}
use Battle.{
  c_req_player_move, i_user_info, s_ans_player_move, c_req_fire_bullet, s_ans_fire_bullet,
  c_req_make_enemy,
}
use Round.{
  s_ans_make_enemy, c_req_enemy_explosion, s_ans_enemy_explosion, c_req_make_boss, s_ans_make_boss,
  c_req_boss_explosion, s_ans_boss_explosion, i_initialize_roommember, s_req_change_scene,
  s_req_on_game,
}
use Codes.{
  e_c_req_exit, e_s_ans_exit, e_i_notify_terminal, e_c_notify_heartbeat, e_c_req_id_pw,
  e_s_ans_id_pw_fail, e_s_ans_id_pw_success, e_i_db_req_id_pw, e_i_db_ans_id_pw,
  e_i_chtting_notify_id, e_i_db_req_load_data, e_i_db_ans_parse_data, e_i_login_notify_id_loaded,
  e_c_req_regist_chatting_name, e_c_req_chatting, e_s_ans_chatting, e_c_req_lobby_info,
  e_s_ans_lobby_info, e_c_req_enter_room, e_s_ans_enter_room, e_c_req_player_move, e_i_user_info,
  e_s_ans_player_move, e_c_req_fire_bullet, e_s_ans_fire_bullet, e_c_req_make_enemy,
  e_s_ans_make_enemy, e_c_req_enemy_explosion, e_s_ans_enemy_explosion, e_c_req_make_boss,
  e_s_ans_make_boss, e_c_req_boss_explosion, e_s_ans_boss_explosion, e_i_initialize_roommember,
  e_s_req_change_scene, e_s_req_on_game,
}

pub data Packet : Type 0 where
  account : AccountPacket → Packet
  notice : NoticePacket → Packet
  lobby : LobbyPacket → Packet
  battle : BattlePacket → Packet
  round : RoundPacket → Packet

unfoldable pub packet_type : Packet → ℕ
unfolding type_account type_notice type_lobby type_battle type_round
packet_type (account p) = type_account p
packet_type (notice p) = type_notice p
packet_type (lobby p) = type_lobby p
packet_type (battle p) = type_battle p
packet_type (round p) = type_round p

-- The virtual `encode`.
unfoldable pub encode : Packet → Stream → Stream
unfolding encode_account encode_notice encode_lobby encode_battle encode_round
encode (account p) = encode_account p
encode (notice p) = encode_notice p
encode (lobby p) = encode_lobby p
encode (battle p) = encode_battle p
encode (round p) = encode_round p

-- The virtual `decode`, on an object with the given fields.
unfoldable pub decode : Packet → Reader Packet
decode (account p) = do q ← decode_account p; pure (account q)
decode (notice p) = do q ← decode_notice p; pure (notice q)
decode (lobby p) = do q ← decode_lobby p; pure (lobby q)
decode (battle p) = do q ← decode_battle p; pure (battle q)
decode (round p) = do q ← decode_round p; pure (round q)

-- The object that `new` makes for the class of a packet.
unfoldable pub blank : Packet → Packet
unfolding blank_account blank_notice blank_lobby blank_battle blank_round
blank (account p) = account (blank_account p)
blank (notice p) = notice (blank_notice p)
blank (lobby p) = lobby (blank_lobby p)
blank (battle p) = battle (blank_battle p)
blank (round p) = round (blank_round p)

unfoldable pub fields : Packet → List Field
unfolding fields_account fields_notice fields_lobby fields_battle fields_round
fields (account p) = fields_account p
fields (notice p) = fields_notice p
fields (lobby p) = fields_lobby p
fields (battle p) = fields_battle p
fields (round p) = fields_round p

-- The `switch` of `getPacket`, case by case.
abbrev pub factory : List (ℕ × Packet)
factory =
    (e_c_req_exit, account c_req_exit)
    ∷ (e_s_ans_exit, account s_ans_exit)
    ∷ (e_i_notify_terminal, account i_notify_terminal)
    ∷ (e_c_notify_heartbeat, account c_notify_heartbeat)
    ∷ (e_c_req_id_pw, account (c_req_id_pw [] []))
    ∷ (e_s_ans_id_pw_fail, account s_ans_id_pw_fail)
    ∷ (e_s_ans_id_pw_success, account (s_ans_id_pw_success [] 0 []))
    ∷ (e_i_db_req_id_pw, account (i_db_req_id_pw 0 [] []))
    ∷ (e_i_db_ans_id_pw, account (i_db_ans_id_pw 0 0 0))
    ∷ (e_i_chtting_notify_id, notice (i_chtting_notify_id 0 0))
    ∷ (e_i_db_req_load_data, notice (i_db_req_load_data 0 0))
    ∷ (e_i_db_ans_parse_data, notice (i_db_ans_parse_data 0 [] 0))
    ∷ (e_i_login_notify_id_loaded, notice (i_login_notify_id_loaded 0 [] 0))
    ∷ (e_c_req_regist_chatting_name, lobby (c_req_regist_chatting_name []))
    ∷ (e_c_req_chatting, lobby (c_req_chatting []))
    ∷ (e_s_ans_chatting, lobby (s_ans_chatting [] []))
    ∷ (e_c_req_lobby_info, lobby (c_req_lobby_info 0 0))
    ∷ (e_s_ans_lobby_info, lobby (s_ans_lobby_info 0 0))
    ∷ (e_c_req_enter_room, lobby (c_req_enter_room 0 0))
    ∷ (e_s_ans_enter_room, lobby (s_ans_enter_room 0 0))
    ∷ (e_c_req_player_move, battle (c_req_player_move 0 0 0))
    ∷ (e_i_user_info, battle (i_user_info 0 0 0))
    ∷ (e_s_ans_player_move, battle (s_ans_player_move 0 0 0))
    ∷ (e_c_req_fire_bullet, battle (c_req_fire_bullet 0 0 0))
    ∷ (e_s_ans_fire_bullet, battle (s_ans_fire_bullet 0 0 0))
    ∷ (e_c_req_make_enemy, battle (c_req_make_enemy 0 0))
    ∷ (e_s_ans_make_enemy, round (s_ans_make_enemy 0))
    ∷ (e_c_req_enemy_explosion, round (c_req_enemy_explosion 0 0))
    ∷ (e_s_ans_enemy_explosion, round (s_ans_enemy_explosion 0 0))
    ∷ (e_c_req_make_boss, round (c_req_make_boss 0))
    ∷ (e_s_ans_make_boss, round (s_ans_make_boss 0))
    ∷ (e_c_req_boss_explosion, round (c_req_boss_explosion 0))
    ∷ (e_s_ans_boss_explosion, round (s_ans_boss_explosion 0 [] 0))
    ∷ (e_i_initialize_roommember, round (i_initialize_roommember 0 0))
    ∷ (e_s_req_change_scene, round (s_req_change_scene 0))
    ∷ (e_s_req_on_game, round (s_req_on_game 0))
    ∷ []

-- `none` is the null pointer.
unfoldable pub get_packet : ℕ → Option Packet
get_packet packet_type = find packet_type factory
