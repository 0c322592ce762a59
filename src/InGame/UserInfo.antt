-- ===== src/InGame/UserInfo.antt =====
-- InGameServer/InGameProcess.cpp:41-121, the handler that opens a match for two users. Its loop looks
-- for the sessions of both users at most three times.
pub mod Rounds
pub mod Retry
pub mod Begin
pub mod Keeping
use graduation_server.Common.{ℕ, zero, suc, Option, none, some}
use graduation_server.Sessions.{SessionManager}
use graduation_server.World.{
  World, Action, done, fault, ◌>>=◌, ◌>>◌, send_packet, get_terminal, terminal_send, session_by_id,
  chatting_server,
}
use graduation_server.Packet.{Packet, account, notice, lobby, battle, round}
use graduation_server.Packet.Battle.{i_user_info}
use graduation_server.Packet.Round.{i_initialize_roommember, s_req_on_game}
use graduation_server.InGame.{
  Room, Game, int_key, insert_user_info, erase_room, insert_sessions, find_sessions, delete_room,
}

-- The third failure: the chatting server empties its room, and the match is forgotten.
unfoldable pub give_up : ℕ → Room → Action Game (Unit {0})
give_up room_num room = do
  terminal ← get_terminal chatting_server
  terminal_send chatting_server terminal (round (i_initialize_roommember room_num 0))
  erase_room (int_key room_num)
  delete_room room

-- One round of the loop: both lookups are registered, a null pointer too, and read back.
unfoldable pub find_users : Room → Action Game (Option ℕ × Option ℕ)
find_users room = do
  session1 ← session_by_id room.user1_id
  insert_sessions room.user1_id session1
  session2 ← session_by_id room.user2_id
  insert_sessions room.user2_id session2
  temp1 ← find_sessions room.user1_id
  temp2 ← find_sessions room.user2_id
  done (temp1, temp2)

-- The test of the loop, and what follows it.
unfoldable pub proceed : ℕ → Option ℕ → Option ℕ → Action Game (Unit {0}) → Action Game (Unit {0})
proceed room_num none temp2 again = again
proceed room_num (some p) none again = again
proceed room_num (some p) (some q) again = do
  send_packet p (round (s_req_on_game room_num))
  send_packet q (round (s_req_on_game room_num))

-- `arrive n` is what other threads do to the sessions before the round with `n` more to come.
module _ (arrive : ℕ → SessionManager → SessionManager) where
  unfoldable pub others : ℕ → Action Game (Unit {0})
  others n w = some (tt, record w { sessions = arrive n w.sessions })

  -- The loop with the number of rounds left, `3 - count`.
  unfoldable pub wait_users : ℕ → ℕ → Room → Action Game (Unit {0})
  wait_users zero room_num room = give_up room_num room
  wait_users (suc n) room_num room = do
    others n
    (temp1, temp2) ← find_users room
    proceed room_num temp1 temp2 (wait_users n room_num room)

  unfoldable pub i_user_info_func : ℕ → Packet → Action Game (Unit {0})
  i_user_info_func p (battle (i_user_info room_num user1_id user2_id)) = do
    let room : Room = record { user1_id = user1_id; user2_id = user2_id; total_exploded_enemy = 0 }
    insert_user_info (int_key room_num) room
    wait_users 3 room_num room
  i_user_info_func p _ = fault
