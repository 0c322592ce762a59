-- ===== src/Chatting/Table.antt =====
-- ChattingServer/ChattingProcess.cpp:15-38: the handlers that the server registers.
use graduation_server.Common.{ℕ, ◌≡◌, refl, List, [], ◌∷◌}
use graduation_server.Packet.{account, packet_type}
use graduation_server.Packet.Account.{c_req_exit}
use graduation_server.Packet.Codes.{
  e_i_chtting_notify_id, e_i_db_ans_parse_data, e_c_req_regist_chatting_name, e_c_req_chatting,
  e_c_req_exit, e_c_req_lobby_info, e_c_req_enter_room, e_i_initialize_roommember,
}
use graduation_server.World.{World}
use graduation_server.Contents.{RunFunc, initialize, run}
use graduation_server.Contents
use graduation_server.Contents.Dispatch.{run_exit}
use graduation_server.Chatting.{Lobby}
use graduation_server.Chatting.Handlers.{
  i_chtting_notify_id_func, i_db_ans_parse_data_func, c_req_regist_chatting_name_func,
  c_req_chatting_func, c_req_exit_func, c_req_lobby_info_func, i_initialize_roommember_func,
}
use graduation_server.Chatting.EnterRoom.{c_req_enter_room_func}

module _ (a2w w2a : List ℕ → List ℕ) where
  -- In the order of `registSubPacketFunc`.
  abbrev pub chatting_funcs : List (ℕ × RunFunc Lobby)
  chatting_funcs =
      (e_i_chtting_notify_id, i_chtting_notify_id_func)
      ∷ (e_i_db_ans_parse_data, i_db_ans_parse_data_func)
      ∷ (e_c_req_regist_chatting_name, c_req_regist_chatting_name_func a2w w2a)
      ∷ (e_c_req_chatting, c_req_chatting_func a2w w2a)
      ∷ (e_c_req_exit, c_req_exit_func)
      ∷ (e_c_req_lobby_info, c_req_lobby_info_func)
      ∷ (e_c_req_enter_room, c_req_enter_room_func)
      ∷ (e_i_initialize_roommember, i_initialize_roommember_func)
      ∷ []

  abbrev pub chatting_table : List (ℕ × RunFunc Lobby)
  chatting_table = initialize chatting_funcs

  -- The chatting server answers an exit packet by the default handler, which closes the session; its own
  -- handler for the packet, which removes the user, does not run.
  pub run-chatting_table :
      (p : ℕ) (w : World Lobby)
      → run chatting_table p (account c_req_exit) w ≡ Contents.c_req_exit p (account c_req_exit) w
  unfolding packet_type
  run-chatting_table p w = run_exit chatting_funcs p (account c_req_exit) w refl
