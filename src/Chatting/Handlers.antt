-- ===== src/Chatting/Handlers.antt =====
-- ChattingServer/ChattingProcess.cpp:39-157 and 254-260: the handlers but the one for entering a room.
pub mod Broadcast
pub mod Dangling
pub mod Keeping
use graduation_server.Common.{
  ℕ, suc, ◌+◌, ◌%◌, ◌^◌, Option, none, some, List, [], ◌∷◌, if◌then◌else◌, ◌==◌,
}
use graduation_server.Stream.{size_of_int32}
use graduation_server.World.{
  World, Action, done, fault, ◌>>=◌, ◌>>◌, deref, send_packet, get_terminal, terminal_send,
  on_close, get_own, db_agent, login_server,
}
use graduation_server.Packet.{Packet, account, notice, lobby, round}
use graduation_server.Packet.Account.{s_ans_exit}
use graduation_server.Packet.Notice.{
  i_chtting_notify_id, i_db_req_load_data, i_db_ans_parse_data, i_login_notify_id_loaded,
}
use graduation_server.Packet.Lobby.{
  c_req_regist_chatting_name, c_req_chatting, s_ans_chatting, c_req_lobby_info, s_ans_lobby_info,
}
use graduation_server.Packet.Round.{i_initialize_roommember}
use graduation_server.Contents.{RunFunc}
use graduation_server.Chatting.{
  User, LobbyRoom, Lobby, lobby_room, set_lobby_room, user_at, insert_user, remove_user,
  store_session, broadcast,
}

unfoldable pub i_chtting_notify_id_func : RunFunc Lobby
i_chtting_notify_id_func p (notice (i_chtting_notify_id client_id oid_account_id)) = do
  terminal ← get_terminal db_agent
  terminal_send db_agent terminal (notice (i_db_req_load_data client_id oid_account_id))
i_chtting_notify_id_func p _ = fault

unfoldable pub i_db_ans_parse_data_func : RunFunc Lobby
i_db_ans_parse_data_func p (notice (i_db_ans_parse_data client_id name result)) = do
  terminal ← get_terminal login_server
  terminal_send login_server terminal (notice (i_login_notify_id_loaded client_id name result))
i_db_ans_parse_data_func p _ = fault

-- `a2w` and `w2a` are what StrConvA2W and StrConvW2A make of a name.
module _ (a2w w2a : List ℕ → List ℕ) where
  unfoldable pub regist : ℕ → ℕ → List ℕ → Option User → Action Lobby (Unit {0})
  regist p id name (some user) = on_close p
  regist p id name none = insert_user id (record { session = p; name = a2w name })

  unfoldable pub c_req_regist_chatting_name_func : RunFunc Lobby
  c_req_regist_chatting_name_func p (lobby (c_req_regist_chatting_name name)) = do
    s ← deref p
    user ← user_at s.id
    regist p s.id name user
  c_req_regist_chatting_name_func p _ = fault

  unfoldable pub chat : ℕ → List ℕ → Option User → Action Lobby (Unit {0})
  chat p text none = on_close p
  chat p text (some user) = do
    g ← get_own
    broadcast (lobby (s_ans_chatting (w2a user.name) text)) g.session_storage

  unfoldable pub c_req_chatting_func : RunFunc Lobby
  c_req_chatting_func p (lobby (c_req_chatting text)) = do
    s ← deref p
    user ← user_at s.id
    chat p text user
  c_req_chatting_func p _ = fault

unfoldable pub leave : ℕ → ℕ → Option User → Action Lobby (Unit {0})
leave p id none = on_close p
leave p id (some user) = do remove_user id; send_packet p (account s_ans_exit)

unfoldable pub c_req_exit_func : RunFunc Lobby
c_req_exit_func p packet = do s ← deref p; user ← user_at s.id; leave p s.id user

-- The rooms in the order of their keys, numbered from `roomnum`.
unfoldable pub tell_rooms : ℕ → ℕ → List (ℕ × LobbyRoom) → Action Lobby (Unit {0})
tell_rooms p roomnum [] = done tt
tell_rooms p roomnum ((key, room) ∷ more) = do
  send_packet p (lobby (s_ans_lobby_info (size_of_int32 room.current_member) roomnum))
  tell_rooms p (roomnum + 1) more

unfoldable pub c_req_lobby_info_func : RunFunc Lobby
c_req_lobby_info_func p packet = do
  s ← deref p
  store_session s.id p
  g ← get_own
  tell_rooms p 0 g.room_array

unfoldable pub i_initialize_roommember_func : RunFunc Lobby
i_initialize_roommember_func p (round (i_initialize_roommember room_num member_count)) = do
  room ← lobby_room room_num
  set_lobby_room room_num (record room { current_member = member_count % 2 ^ 32 })
i_initialize_roommember_func p _ = fault
