-- ===== src/Chatting/EnterRoom/Keeping.antt =====
-- ChattingServer/ChattingProcess.cpp:159-252: entering a room does not break the session manager.
use graduation_server.Common.{ℕ, zero, suc, Option, none, some}
use graduation_server.World.{session_by_id, Action, Terminal}
use graduation_server.Packet.{Packet, lobby}
use graduation_server.Packet.Lobby.{c_req_enter_room}
use graduation_server.Contents.Keeping.{
  Keeps, Keeps-bind, session_by_id-Keeps, Keeps-fault, keeps_rules,
}
use graduation_server.Chatting.{LobbyRoom, Lobby}
use graduation_server.Chatting.Keeping.{lobby_rules}
use graduation_server.Chatting.EnterRoom.{
  looked_up, id_of, notify_first, notify_second, notify_by, notify, start, enter,
  c_req_enter_room_func,
}

module _ {max : ℕ} where
  id_of-Keeps : (p : Option ℕ) → Keeps max (id_of p)
  unfolding id_of
  id_of-Keeps none = search keeps_rules
  id_of-Keeps (some p) = search keeps_rules

  notify_first-Keeps :
      (t : Option Terminal) (n : ℕ) (room : LobbyRoom) → Keeps max (notify_first t n room)
  unfolding notify_first
  notify_first-Keeps t n room = search (lobby_rules, id_of-Keeps) depth 8

  notify_second-Keeps :
      (t : Option Terminal) (n : ℕ) (room : LobbyRoom) → Keeps max (notify_second t n room)
  unfolding notify_second
  notify_second-Keeps t n room = search lobby_rules

  notify_by-Keeps :
      (found : Option ℕ) (t : Option Terminal) (n : ℕ) (room : LobbyRoom)
      (again : Action Lobby LobbyRoom)
      → Keeps max again
      → Keeps max (notify_by found t n room again)
  unfolding notify_by
  notify_by-Keeps none t n room again k = search (keeps_rules, notify_second-Keeps)
  notify_by-Keeps (some q) t n room again k = search (keeps_rules, notify_first-Keeps)

  notify-Keeps :
      (fuel : ℕ) (t : Option Terminal) (n : ℕ) (room : LobbyRoom) → Keeps max (notify fuel t n room)
  unfolding notify
  notify-Keeps zero t n room = Keeps-fault
  notify-Keeps (suc fuel) t n room =
      let again : LobbyRoom = record room { user1 = none } in
      Keeps-bind (session_by_id (looked_up room.user1)) _
        (session_by_id-Keeps (looked_up room.user1))
        (λ found.
          notify_by-Keeps found t n room (notify fuel t n again) (notify-Keeps fuel t n again))

  start-Keeps : (n : ℕ) (room : LobbyRoom) → Keeps max (start n room)
  unfolding start
  start-Keeps n room = search (lobby_rules, id_of-Keeps, notify-Keeps) depth 10

  enter-Keeps : (p count n : ℕ) (room : LobbyRoom) → Keeps max (enter p count n room)
  unfolding enter
  enter-Keeps p count n room = search (lobby_rules, start-Keeps) depth 8

  pub c_req_enter_room-Keeps :
      (p : ℕ) (packet : Packet) → Keeps max (c_req_enter_room_func p packet)
  unfolding c_req_enter_room_func
  c_req_enter_room-Keeps p (lobby (c_req_enter_room member_count room_num)) =
      search (lobby_rules, enter-Keeps)
  c_req_enter_room-Keeps p _ = Keeps-fault
