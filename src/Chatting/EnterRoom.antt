-- ===== src/Chatting/EnterRoom.antt =====
-- ChattingServer/ChattingProcess.cpp:159-252: entering a room, and the start of a match once it is full.
pub mod Start
pub mod Match
pub mod Keeping
use graduation_server.Common.{
  ℕ, zero, suc, ◌+◌, ◌%◌, ◌^◌, Option, none, some, List, [], ◌∷◌, if◌then◌else◌, ◌==◌,
}
use graduation_server.Stream.{size_of_int32}
use graduation_server.World.{
  World, Action, Terminal, done, fault, ◌>>=◌, ◌>>◌, deref, send_packet, send_to, get_terminal,
  the_terminal, terminal_send, session_by_id, get_own, in_game_server,
}
use graduation_server.Packet.{Packet, lobby, battle}
use graduation_server.Packet.Lobby.{c_req_enter_room, s_ans_enter_room, s_notify_server_ip}
use graduation_server.Packet.Battle.{i_user_info}
use graduation_server.Contents.{RunFunc}
use graduation_server.Chatting.{
  LobbyRoom, Lobby, is_full, lobby_room, set_lobby_room, delete_stored, broadcast,
}

-- The first user of a room is `user1`; every later one is `user2`.
unfoldable pub seat : ℕ → LobbyRoom → LobbyRoom
seat p room = elim room.user1 [
  | none ↦ record room { user1 = some p }
  | some _ ↦ record room { user2 = some p }
]

-- `user->id()`
unfoldable pub id_of : Option ℕ → Action Lobby ℕ
id_of none = fault
id_of (some p) = do s ← deref p; done s.id

-- A port is an `int` that becomes a UInt32.
unfoldable pub notice_of : Terminal → Packet
notice_of t = lobby (s_notify_server_ip t.ip (t.port % 2 ^ 32))

-- The argument of the lookup in the loop is the comparison `user1 != NULL`, so 1 or 0.
unfoldable pub looked_up : Option ℕ → ℕ
looked_up none = 0
looked_up (some p) = 1

unfoldable pub notify_first : Option Terminal → ℕ → LobbyRoom → Action Lobby (Unit {0})
notify_first terminal room_num room = do
  t ← the_terminal terminal
  send_to room.user1 (notice_of t)
  id ← id_of room.user1
  found ← session_by_id id
  send_to found (notice_of t)
  set_lobby_room room_num (record room { user1 = none })

unfoldable pub notify_second : Option Terminal → ℕ → LobbyRoom → Action Lobby (Unit {0})
notify_second terminal room_num room = do
  t ← the_terminal terminal
  send_to room.user2 (notice_of t)
  set_lobby_room room_num (record room { user2 = none })

-- One pass of the loop, by what the lookup found.
unfoldable pub notify_by :
    Option ℕ → Option Terminal → ℕ → LobbyRoom → Action Lobby LobbyRoom → Action Lobby LobbyRoom
notify_by none terminal room_num room again = do
  notify_second terminal room_num room
  done (record room { user2 = none })
notify_by (some q) terminal room_num room again = do notify_first terminal room_num room; again

-- The loop, with a bound on its passes; at 0 it is given up.
unfoldable pub notify : ℕ → Option Terminal → ℕ → LobbyRoom → Action Lobby LobbyRoom
notify zero terminal room_num room = fault
notify (suc n) terminal room_num room = do
  found ← session_by_id (looked_up room.user1)
  notify_by found terminal room_num room (notify n terminal room_num (record room { user1 = none }))

unfoldable pub start : ℕ → LobbyRoom → Action Lobby (Unit {0})
start room_num room = do
  terminal ← get_terminal in_game_server
  id1 ← id_of room.user1
  id2 ← id_of room.user2
  told ← notify 2 terminal room_num room
  terminal_send in_game_server terminal (battle (i_user_info room_num id1 id2))
  set_lobby_room room_num (record told { user1 = none })
  delete_stored id1
  delete_stored id2

unfoldable pub enter : ℕ → ℕ → ℕ → LobbyRoom → Action Lobby (Unit {0})
enter p member_count room_num room = do
  let entered = seat p (record room { current_member = member_count % 2 ^ 32 })
  set_lobby_room room_num entered
  g ← get_own
  broadcast (lobby (s_ans_enter_room (size_of_int32 entered.current_member) room_num))
      g.session_storage
  if entered.current_member == 2 then start room_num entered else done tt

unfoldable pub c_req_enter_room_func : RunFunc Lobby
c_req_enter_room_func p (lobby (c_req_enter_room member_count room_num)) = do
  room ← lobby_room room_num
  if is_full room then done tt else enter p ((member_count + 1) % 2 ^ 64) room_num room
c_req_enter_room_func p _ = fault
