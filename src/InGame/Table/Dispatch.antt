-- ===== src/InGame/Table/Dispatch.antt =====
-- Which handler a packet of each class meets in InGameServer/InGameProcess.cpp and
-- StaticLib1/ContentsProcess.cpp:71-86.
use graduation_server.Common.{ℕ, ◌≡◌, refl, ap, ◌∙◌, Option, none, some, find, insert}
use graduation_server.Sessions.{SessionManager}
use graduation_server.Packet.{Packet, account, notice, lobby, battle, round, packet_type}
use graduation_server.World.{World, on_close}
use graduation_server.Contents.{
  RunFunc, initialize, run, regist_default_packet_func, regist_sub_packet_func, packet_heart_beat,
  packet_notify_terminal,
}
use graduation_server.Contents
use graduation_server.InGame.{Game}
use graduation_server.InGame.Table.{in_game_table}
use graduation_server.InGame.UserInfo.{i_user_info_func}
use graduation_server.InGame.Handlers.{
  c_req_player_move_func, c_req_fire_bullet_func, c_req_make_enemy_func, c_req_enemy_explosion_func,
  c_req_make_boss_func, c_req_boss_explosion_func,
}
use graduation_server.Packet.{Packet, account, notice, lobby, battle, round, packet_type}
use graduation_server.Packet.Account.{
  c_req_exit, s_ans_exit, i_notify_terminal, c_notify_heartbeat, c_req_id_pw, s_ans_id_pw_fail,
  s_ans_id_pw_success, i_db_req_id_pw, i_db_ans_id_pw,
}
use graduation_server.Packet.Notice.{
  i_chtting_notify_id, i_db_req_load_data, i_db_ans_parse_data, i_login_notify_id_loaded,
}
use graduation_server.Packet.Lobby.{
  c_req_regist_chatting_name, c_req_chatting, s_ans_chatting, c_req_lobby_info, s_ans_lobby_info,
  c_req_enter_room, s_ans_enter_room, s_notify_server_ip,
}
use graduation_server.Packet.Battle.{
  c_req_player_move, i_user_info, s_ans_player_move, c_req_fire_bullet, s_ans_fire_bullet,
  c_req_make_enemy,
}
use graduation_server.Packet.Round.{
  s_ans_make_enemy, c_req_enemy_explosion, s_ans_enemy_explosion, c_req_make_boss, s_ans_make_boss,
  c_req_boss_explosion, s_ans_boss_explosion, i_initialize_roommember, s_req_change_scene,
  s_req_on_game,
}

-- The handler for each class; all other packets close the session.
unfoldable pub handler : (ℕ → SessionManager → SessionManager) → Packet → RunFunc Game
handler arrive (account c_req_exit) = Contents.c_req_exit
handler arrive (account i_notify_terminal) = packet_notify_terminal
handler arrive (account c_notify_heartbeat) = packet_heart_beat
handler arrive (battle (c_req_player_move _ _ _)) = c_req_player_move_func
handler arrive (battle (i_user_info _ _ _)) = i_user_info_func arrive
handler arrive (battle (c_req_fire_bullet _ _ _)) = c_req_fire_bullet_func
handler arrive (battle (c_req_make_enemy _ _)) = c_req_make_enemy_func
handler arrive (round (c_req_enemy_explosion _ _)) = c_req_enemy_explosion_func
handler arrive (round (c_req_make_boss _)) = c_req_make_boss_func
handler arrive (round (c_req_boss_explosion _)) = c_req_boss_explosion_func
handler arrive _ = λ p packet. on_close p

or_close : Option (RunFunc Game) → RunFunc Game
or_close none = λ p packet. on_close p
or_close (some func) = func

handler_found :
    (arrive : ℕ → SessionManager → SessionManager) (packet : Packet)
    → or_close (find (packet_type packet) (in_game_table arrive)) ≡ handler arrive packet
unfolding or_close handler in_game_table initialize regist_sub_packet_func
    regist_default_packet_func find insert packet_type
handler_found arrive (account c_req_exit) = refl
handler_found arrive (account s_ans_exit) = refl
handler_found arrive (account i_notify_terminal) = refl
handler_found arrive (account c_notify_heartbeat) = refl
handler_found arrive (account (c_req_id_pw _ _)) = refl
handler_found arrive (account s_ans_id_pw_fail) = refl
handler_found arrive (account (s_ans_id_pw_success _ _ _)) = refl
handler_found arrive (account (i_db_req_id_pw _ _ _)) = refl
handler_found arrive (account (i_db_ans_id_pw _ _ _)) = refl
handler_found arrive (notice (i_chtting_notify_id _ _)) = refl
handler_found arrive (notice (i_db_req_load_data _ _)) = refl
handler_found arrive (notice (i_db_ans_parse_data _ _ _)) = refl
handler_found arrive (notice (i_login_notify_id_loaded _ _ _)) = refl
handler_found arrive (lobby (c_req_regist_chatting_name _)) = refl
handler_found arrive (lobby (c_req_chatting _)) = refl
handler_found arrive (lobby (s_ans_chatting _ _)) = refl
handler_found arrive (lobby (c_req_lobby_info _ _)) = refl
handler_found arrive (lobby (s_ans_lobby_info _ _)) = refl
handler_found arrive (lobby (c_req_enter_room _ _)) = refl
handler_found arrive (lobby (s_ans_enter_room _ _)) = refl
handler_found arrive (lobby (s_notify_server_ip _ _)) = refl
handler_found arrive (battle (c_req_player_move _ _ _)) = refl
handler_found arrive (battle (i_user_info _ _ _)) = refl
handler_found arrive (battle (s_ans_player_move _ _ _)) = refl
handler_found arrive (battle (c_req_fire_bullet _ _ _)) = refl
handler_found arrive (battle (s_ans_fire_bullet _ _ _)) = refl
handler_found arrive (battle (c_req_make_enemy _ _)) = refl
handler_found arrive (round (s_ans_make_enemy _)) = refl
handler_found arrive (round (c_req_enemy_explosion _ _)) = refl
handler_found arrive (round (s_ans_enemy_explosion _ _)) = refl
handler_found arrive (round (c_req_make_boss _)) = refl
handler_found arrive (round (s_ans_make_boss _)) = refl
handler_found arrive (round (c_req_boss_explosion _)) = refl
handler_found arrive (round (s_ans_boss_explosion _ _ _)) = refl
handler_found arrive (round (i_initialize_roommember _ _)) = refl
handler_found arrive (round (s_req_change_scene _)) = refl
handler_found arrive (round (s_req_on_game _)) = refl

-- The server runs for each of its seven classes of packets the handler of that class, for an exit, the notice
-- of a terminal and a heartbeat the default handler, and for any other class it closes the session.
pub run-in_game_table :
    (arrive : ℕ → SessionManager → SessionManager) (p : ℕ) (packet : Packet) (w : World Game)
    → run (in_game_table arrive) p packet w ≡ handler arrive packet p packet w
unfolding run or_close
run-in_game_table arrive p packet w =
    either (find (packet_type packet) (in_game_table arrive))
    ∙ ap (λ func. func p packet w) (handler_found arrive packet)
  where
    either :
        (o : Option (RunFunc Game))
        → (elim o [ none ↦ on_close p w | some func ↦ func p packet w ]) ≡ or_close o p packet w
    either none = refl
    either (some func) = refl
