-- ===== src/Analyzer/Factory.antt =====
-- StaticLib1/PacketFactory.h: which type numbers have a class, and which class they get.
use graduation_server.Common.{
  ℕ, ◌≡◌, ◌≢◌, refl, some, List, [], ◌∷◌, All, find, arith, Bool-cases, ◌==◌, inl, inr,
}
use mathlib.Core.Path.{subst₂}
use graduation_server.Packet.{
  Packet, account, notice, lobby, battle, round, packet_type, blank, factory, get_packet,
}
use graduation_server.Packet.Codes.{e_s_notify_server_ip}
use graduation_server.Packet.Account.{
  c_req_exit, s_ans_exit, i_notify_terminal, c_notify_heartbeat, c_req_id_pw, s_ans_id_pw_fail,
  s_ans_id_pw_success, i_db_req_id_pw, i_db_ans_id_pw,
}
use graduation_server.Packet.Notice.{
  i_chtting_notify_id, i_db_req_load_data, i_db_ans_parse_data, i_login_notify_id_loaded,
}
use graduation_server.Packet.Lobby.{
  c_req_regist_chatting_name, c_req_chatting, s_ans_chatting, c_req_lobby_info, s_ans_lobby_info,
  c_req_enter_room, s_ans_enter_room, s_notify_server_ip,
}
use graduation_server.Packet.Battle.{
  c_req_player_move, i_user_info, s_ans_player_move, c_req_fire_bullet, s_ans_fire_bullet,
  c_req_make_enemy,
}
use graduation_server.Packet.Round.{
  s_ans_make_enemy, c_req_enemy_explosion, s_ans_enemy_explosion, c_req_make_boss, s_ans_make_boss,
  c_req_boss_explosion, s_ans_boss_explosion, i_initialize_roommember, s_req_change_scene,
  s_req_on_game,
}

-- The factory makes, for the type of any packet but S_NOTIFY_SERVER_IP, a new object of its class.
pub get_packet-packet_type :
    (p : Packet)
    → packet_type p ≢ e_s_notify_server_ip
    → get_packet (packet_type p) ≡ some (blank p)
unfolding get_packet packet_type blank find
get_packet-packet_type (account c_req_exit) h = refl
get_packet-packet_type (account s_ans_exit) h = refl
get_packet-packet_type (account i_notify_terminal) h = refl
get_packet-packet_type (account c_notify_heartbeat) h = refl
get_packet-packet_type (account (c_req_id_pw _ _)) h = refl
get_packet-packet_type (account s_ans_id_pw_fail) h = refl
get_packet-packet_type (account (s_ans_id_pw_success _ _ _)) h = refl
get_packet-packet_type (account (i_db_req_id_pw _ _ _)) h = refl
get_packet-packet_type (account (i_db_ans_id_pw _ _ _)) h = refl
get_packet-packet_type (notice (i_chtting_notify_id _ _)) h = refl
get_packet-packet_type (notice (i_db_req_load_data _ _)) h = refl
get_packet-packet_type (notice (i_db_ans_parse_data _ _ _)) h = refl
get_packet-packet_type (notice (i_login_notify_id_loaded _ _ _)) h = refl
get_packet-packet_type (lobby (c_req_regist_chatting_name _)) h = refl
get_packet-packet_type (lobby (c_req_chatting _)) h = refl
get_packet-packet_type (lobby (s_ans_chatting _ _)) h = refl
get_packet-packet_type (lobby (c_req_lobby_info _ _)) h = refl
get_packet-packet_type (lobby (s_ans_lobby_info _ _)) h = refl
get_packet-packet_type (lobby (c_req_enter_room _ _)) h = refl
get_packet-packet_type (lobby (s_ans_enter_room _ _)) h = refl
get_packet-packet_type (lobby (s_notify_server_ip _ _)) h = absurd (h refl)
get_packet-packet_type (battle (c_req_player_move _ _ _)) h = refl
get_packet-packet_type (battle (i_user_info _ _ _)) h = refl
get_packet-packet_type (battle (s_ans_player_move _ _ _)) h = refl
get_packet-packet_type (battle (c_req_fire_bullet _ _ _)) h = refl
get_packet-packet_type (battle (s_ans_fire_bullet _ _ _)) h = refl
get_packet-packet_type (battle (c_req_make_enemy _ _)) h = refl
get_packet-packet_type (round (s_ans_make_enemy _)) h = refl
get_packet-packet_type (round (c_req_enemy_explosion _ _)) h = refl
get_packet-packet_type (round (s_ans_enemy_explosion _ _)) h = refl
get_packet-packet_type (round (c_req_make_boss _)) h = refl
get_packet-packet_type (round (s_ans_make_boss _)) h = refl
get_packet-packet_type (round (c_req_boss_explosion _)) h = refl
get_packet-packet_type (round (s_ans_boss_explosion _ _ _)) h = refl
get_packet-packet_type (round (i_initialize_roommember _ _)) h = refl
get_packet-packet_type (round (s_req_change_scene _)) h = refl
get_packet-packet_type (round (s_req_on_game _)) h = refl

find-All :
    (P : ℕ → Packet → Type 0) (k : ℕ) (m : List (ℕ × Packet)) {p : Packet}
    → All (λ e. P e.0 e.1) m
    → find k m ≡ some p
    → P k p
unfolding find
find-All P k [] h e = cc
find-All P k ((j, q) ∷ m) {p} h e = elim (Bool-cases (j == k)) [
  | inl hit ↦
      let same : j ≡ k = ground arith in let found : q ≡ p = ground arith in subst₂ P same found h.0
  | inr miss ↦ find-All P k m h.1 (ground arith)
]

-- Whatever the factory makes for a number has that number as its type, and it makes no object for
-- the type of S_NOTIFY_SERVER_IP.
pub packet_type-get_packet :
    (n : ℕ) (p : Packet) → get_packet n ≡ some p → (packet_type p ≡ n) × (n ≢ e_s_notify_server_ip)
unfolding get_packet packet_type
packet_type-get_packet n p e =
    find-All (λ k q. (packet_type q ≡ k) × (k ≢ e_s_notify_server_ip)) n factory entries e
  where
    entries : All (λ e. (packet_type e.1 ≡ e.0) × (e.0 ≢ e_s_notify_server_ip)) factory
    entries = omega arith
