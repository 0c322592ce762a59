-- ===== src/Chatting/Handlers/Keeping.antt =====
-- ChattingServer/ChattingProcess.cpp:39-157 and 254-260: these handlers do not break the session manager.
use graduation_server.Common.{ℕ, ◌+◌, Option, none, some, List, [], ◌∷◌}
use graduation_server.Packet.{Packet, notice, lobby, round}
use graduation_server.Packet.Notice.{i_chtting_notify_id, i_db_ans_parse_data}
use graduation_server.Packet.Lobby.{c_req_regist_chatting_name, c_req_chatting, s_ans_lobby_info}
use graduation_server.World.{send_packet}
use graduation_server.Stream.{size_of_int32}
use graduation_server.Packet.Round.{i_initialize_roommember}
use graduation_server.Contents.Keeping.{
  Keeps, Keeps-bind, send_packet-Keeps, Keeps-fault, keeps_rules,
}
use graduation_server.Chatting.{User, LobbyRoom}
use graduation_server.Chatting.Keeping.{lobby_rules}
use graduation_server.Chatting.Handlers.{
  i_chtting_notify_id_func, i_db_ans_parse_data_func, regist, c_req_regist_chatting_name_func, chat,
  c_req_chatting_func, leave, c_req_exit_func, tell_rooms, c_req_lobby_info_func,
  i_initialize_roommember_func,
}

module _ {max : ℕ} where
  pub i_chtting_notify_id-Keeps :
      (p : ℕ) (packet : Packet) → Keeps max (i_chtting_notify_id_func p packet)
  unfolding i_chtting_notify_id_func
  i_chtting_notify_id-Keeps p (notice (i_chtting_notify_id client_id oid)) = search keeps_rules
  i_chtting_notify_id-Keeps p _ = Keeps-fault

  pub i_db_ans_parse_data-Keeps :
      (p : ℕ) (packet : Packet) → Keeps max (i_db_ans_parse_data_func p packet)
  unfolding i_db_ans_parse_data_func
  i_db_ans_parse_data-Keeps p (notice (i_db_ans_parse_data client_id name result)) =
      search keeps_rules
  i_db_ans_parse_data-Keeps p _ = Keeps-fault

  module _ (a2w w2a : List ℕ → List ℕ) where
    regist-Keeps :
        (p id : ℕ) (name : List ℕ) (user : Option User) → Keeps max (regist a2w w2a p id name user)
    unfolding regist
    regist-Keeps p id name none = search lobby_rules
    regist-Keeps p id name (some user) = search lobby_rules

    pub c_req_regist_chatting_name-Keeps :
        (p : ℕ) (packet : Packet) → Keeps max (c_req_regist_chatting_name_func a2w w2a p packet)
    unfolding c_req_regist_chatting_name_func
    c_req_regist_chatting_name-Keeps p (lobby (c_req_regist_chatting_name name)) =
        search (lobby_rules, regist-Keeps)
    c_req_regist_chatting_name-Keeps p _ = Keeps-fault

    chat-Keeps : (p : ℕ) (text : List ℕ) (user : Option User) → Keeps max (chat a2w w2a p text user)
    unfolding chat
    chat-Keeps p text none = search lobby_rules
    chat-Keeps p text (some user) = search lobby_rules

    pub c_req_chatting-Keeps :
        (p : ℕ) (packet : Packet) → Keeps max (c_req_chatting_func a2w w2a p packet)
    unfolding c_req_chatting_func
    c_req_chatting-Keeps p (lobby (c_req_chatting text)) = search (lobby_rules, chat-Keeps)
    c_req_chatting-Keeps p _ = Keeps-fault

  leave-Keeps : (p id : ℕ) (user : Option User) → Keeps max (leave p id user)
  unfolding leave
  leave-Keeps p id none = search lobby_rules
  leave-Keeps p id (some user) = search lobby_rules

  pub c_req_exit-Keeps : (p : ℕ) (packet : Packet) → Keeps max (c_req_exit_func p packet)
  unfolding c_req_exit_func
  c_req_exit-Keeps p packet = search (lobby_rules, leave-Keeps)

  tell_rooms-Keeps : (p n : ℕ) (rooms : List (ℕ × LobbyRoom)) → Keeps max (tell_rooms p n rooms)
  unfolding tell_rooms
  tell_rooms-Keeps p n [] = search keeps_rules
  tell_rooms-Keeps p n ((key, room) ∷ more) =
      Keeps-bind (send_packet p (lobby (s_ans_lobby_info (size_of_int32 room.current_member) n)))
        (λ _. tell_rooms p (n + 1) more)
        (send_packet-Keeps p (lobby (s_ans_lobby_info (size_of_int32 room.current_member) n)))
        (λ _. tell_rooms-Keeps p (n + 1) more)

  pub c_req_lobby_info-Keeps :
      (p : ℕ) (packet : Packet) → Keeps max (c_req_lobby_info_func p packet)
  unfolding c_req_lobby_info_func
  c_req_lobby_info-Keeps p packet = search (lobby_rules, tell_rooms-Keeps)

  pub i_initialize_roommember-Keeps :
      (p : ℕ) (packet : Packet) → Keeps max (i_initialize_roommember_func p packet)
  unfolding i_initialize_roommember_func
  i_initialize_roommember-Keeps p (round (i_initialize_roommember room_num member_count)) =
      search lobby_rules
  i_initialize_roommember-Keeps p _ = Keeps-fault
