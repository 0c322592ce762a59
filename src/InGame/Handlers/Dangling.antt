-- ===== src/InGame/Handlers/Dangling.antt =====
-- What the game server keeps of a player who left: InGameServer/InGameProcess.cpp:124-220.
use graduation_server.Common.{ℕ, ◌≡◌, none, some, arith, find}
use graduation_server.Sessions.{Session}
use graduation_server.World.{World, deref, send_packet, get_own}
use graduation_server.Packet.{battle}
use graduation_server.Packet.Battle.{c_req_player_move}
use graduation_server.InGame.{Room, Game, int_key, join, find_room, find_sessions}
use graduation_server.InGame.Handlers.{c_req_player_move_func, move_in, send_if}

pub move_dead :
    (p q room_num x y : ℕ) (room : Room) (w : World Game) (t : Session)
    → find (int_key room_num) w.own.room_arr ≡ some room
    → find q w.sessions.heap ≡ some t
    → room.user1_id ≡ t.id
    → find room.user2_id w.own.simple_sessions ≡ some (some p)
    → find p w.sessions.heap ≡ none
    → c_req_player_move_func q (battle (c_req_player_move room_num x y)) w ≡ none
unfolding c_req_player_move_func move_in send_if find_room find_sessions get_own deref send_packet
    join
move_dead p q room_num x y room w t there alive mine second dead =
    ground (arith, there, alive, mine, second, dead)
