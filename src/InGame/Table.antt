-- ===== src/InGame/Table.antt =====
-- InGameServer/InGameProcess.cpp:15-36: the handlers that the server registers.
pub mod Dispatch
pub mod Departure
use graduation_server.Common.{ℕ, ◌≡◌, ◌≢◌, refl, ◌∙◌, Option, none, some, List, [], ◌∷◌, ◌++◌, find}
use graduation_server.Sessions.{SessionManager}
use graduation_server.Packet.{Packet, packet_type, account, battle, round}
use graduation_server.Packet.Codes.{
  e_c_req_enemy_explosion, e_c_req_player_move, e_i_user_info, e_c_req_fire_bullet,
  e_c_req_make_enemy, e_c_req_make_boss, e_c_req_boss_explosion,
}
use graduation_server.World.{World}
use graduation_server.Contents.{RunFunc, initialize, run}
use graduation_server.InGame.{Game}
use graduation_server.InGame.UserInfo.{i_user_info_func}
use graduation_server.InGame.Handlers.{
  c_req_player_move_func, c_req_fire_bullet_func, c_req_make_enemy_func, c_req_enemy_explosion_func,
  c_req_make_boss_func, c_req_boss_explosion_func,
}

-- In the order of `registSubPacketFunc`.
pub in_game_funcs : (ℕ → SessionManager → SessionManager) → List (ℕ × RunFunc Game)
in_game_funcs arrive =
    (e_c_req_enemy_explosion, c_req_enemy_explosion_func)
    ∷ (e_c_req_player_move, c_req_player_move_func)
    ∷ (e_i_user_info, i_user_info_func arrive)
    ∷ (e_c_req_fire_bullet, c_req_fire_bullet_func)
    ∷ (e_c_req_make_enemy, c_req_make_enemy_func)
    ∷ (e_c_req_make_boss, c_req_make_boss_func)
    ∷ (e_c_req_boss_explosion, c_req_boss_explosion_func)
    ∷ []

unfoldable pub in_game_table : (ℕ → SessionManager → SessionManager) → List (ℕ × RunFunc Game)
unfolding in_game_funcs
in_game_table arrive = initialize (in_game_funcs arrive)
