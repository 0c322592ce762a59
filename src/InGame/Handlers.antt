-- ===== src/InGame/Handlers.antt =====
-- InGameServer/InGameProcess.cpp:124-341, the handlers of a running match.
pub mod Relay
pub mod Match
pub mod Boss
pub mod Keeping
pub mod Dangling
use graduation_server.Common.{
  ℕ, ◌+◌, ◌%◌, ◌^◌, Bool, true, false, Option, none, some, List, [], ◌∷◌, ltb, leb, ◌==◌,
  if◌then◌else◌, ◌&&◌,
}
use graduation_server.Sessions.{Session}
use graduation_server.World.{
  World, Action, done, fault, ◌>>=◌, ◌>>◌, deref, send_packet, send_to, get_terminal, the_terminal,
  terminal_send, chatting_server,
}
use graduation_server.Packet.{Packet, account, notice, lobby, battle, round}
use graduation_server.Packet.Battle.{
  c_req_player_move, s_ans_player_move, c_req_fire_bullet, s_ans_fire_bullet, c_req_make_enemy,
}
use graduation_server.Packet.Round.{
  s_ans_make_enemy, c_req_enemy_explosion, s_ans_enemy_explosion, c_req_make_boss, s_ans_make_boss,
  c_req_boss_explosion, s_ans_boss_explosion, i_initialize_roommember,
}
use graduation_server.InGame.{
  Room, Game, int_key, find_room, set_room, erase_room, find_sessions, delete_room,
}

-- Sends unless the pointer is null.
pub send_if : Option ℕ → Packet → Action Game (Unit {0})
send_if none packet = done tt
send_if (some p) packet = send_packet p packet

pub move_in : ℕ → Packet → Option Room → Action Game (Unit {0})
unfolding send_if
move_in p packet none = done tt
move_in p packet (some room) = do
  s ← deref p
  if room.user1_id == s.id
      then (do temp ← find_sessions room.user2_id; send_if temp packet)
      else if room.user2_id == s.id
      then (do temp ← find_sessions room.user1_id; send_if temp packet)
      else done tt

-- A handler gets a packet of its own class; `fault` is the cast of a packet of another class.
unfoldable pub c_req_player_move_func : ℕ → Packet → Action Game (Unit {0})
unfolding move_in
c_req_player_move_func p (battle (c_req_player_move room_num x y)) = do
  room ← find_room (int_key room_num)
  move_in p (battle (s_ans_player_move room_num x y)) room
c_req_player_move_func p _ = fault

-- No test for the null pointer here: `send_to` is undefined for it.
pub fire_in : ℕ → Packet → Option Room → Action Game (Unit {0})
fire_in p packet none = done tt
fire_in p packet (some room) = do
  s ← deref p
  if room.user1_id == s.id
      then (do temp ← find_sessions room.user2_id; send_to temp packet)
      else if room.user2_id == s.id
      then (do temp ← find_sessions room.user1_id; send_to temp packet)
      else done tt

unfoldable pub c_req_fire_bullet_func : ℕ → Packet → Action Game (Unit {0})
unfolding fire_in
c_req_fire_bullet_func p (battle (c_req_fire_bullet room_num x y)) = do
  room ← find_room (int_key room_num)
  fire_in p (battle (s_ans_fire_bullet room_num x y)) room
c_req_fire_bullet_func p _ = fault

-- The partner first; without a partner nobody gets the packet.
pub enemy_to : ℕ → Option ℕ → Packet → Action Game (Unit {0})
enemy_to p none packet = done tt
enemy_to p (some temp) packet = do send_packet temp packet; send_packet p packet

pub enemy_in : ℕ → Packet → Option Room → Action Game (Unit {0})
unfolding enemy_to
enemy_in p packet none = done tt
enemy_in p packet (some room) = if leb 1 room.total_exploded_enemy then done tt else do
  s ← deref p
  if s.id == room.user1_id
      then (do temp ← find_sessions room.user2_id; enemy_to p temp packet)
      else done tt

unfoldable pub c_req_make_enemy_func : ℕ → Packet → Action Game (Unit {0})
unfolding enemy_in
c_req_make_enemy_func p (battle (c_req_make_enemy room_num x)) = do
  room ← find_room (int_key room_num)
  enemy_in p (round (s_ans_make_enemy x)) room
c_req_make_enemy_func p _ = fault

pub explode : ℕ → ℕ → ℕ → Room → Action Game (Unit {0})
explode p room_num enemycount room = do
  let total = (room.total_exploded_enemy + enemycount) % 2 ^ 64
  set_room (int_key room_num) (record room { total_exploded_enemy = total })
  send_packet p (round (s_ans_enemy_explosion room_num total))

pub explode_in : ℕ → ℕ → ℕ → Option Room → Action Game (Unit {0})
unfolding explode
explode_in p room_num enemycount none = done tt
explode_in p room_num enemycount (some room) = do
  s ← deref p
  if s.id == room.user1_id && ltb room.total_exploded_enemy 5
      then explode p room_num enemycount room
      else done tt

unfoldable pub c_req_enemy_explosion_func : ℕ → Packet → Action Game (Unit {0})
unfolding explode_in
c_req_enemy_explosion_func p (round (c_req_enemy_explosion room_num enemycount)) = do
  room ← find_room (int_key room_num)
  explode_in p room_num enemycount room
c_req_enemy_explosion_func p _ = fault

-- The player who asked, then the partner.
pub tell_both : ℕ → Packet → Room → Action Game (Unit {0})
tell_both p packet room = do
  send_packet p packet
  temp ← find_sessions room.user2_id
  send_to temp packet

pub boss_in : ℕ → Packet → Option Room → Action Game (Unit {0})
unfolding tell_both
boss_in p packet none = done tt
boss_in p packet (some room) = do
  s ← deref p
  if s.id == room.user1_id then tell_both p packet room else done tt

unfoldable pub c_req_make_boss_func : ℕ → Packet → Action Game (Unit {0})
unfolding boss_in
c_req_make_boss_func p (round (c_req_make_boss room_num)) = do
  room ← find_room (int_key room_num)
  boss_in p (round (s_ans_make_boss room_num)) room
c_req_make_boss_func p _ = fault

-- The end of a match: the chatting server empties its room, both players are told where it is, and
-- the room and its players are forgotten. `port` is an `int` that becomes a UInt32.
pub game_over : ℕ → ℕ → Room → Action Game (Unit {0})
unfolding tell_both
game_over p room_num room = do
  terminal ← get_terminal chatting_server
  terminal_send chatting_server terminal (round (i_initialize_roommember room_num 0))
  t ← the_terminal terminal
  tell_both p (round (s_ans_boss_explosion room_num t.ip (t.port % 2 ^ 32))) room
  erase_room (int_key room_num)
  delete_room room

pub over_in : ℕ → ℕ → Option Room → Action Game (Unit {0})
unfolding game_over
over_in p room_num none = done tt
over_in p room_num (some room) = do
  s ← deref p
  if s.id == room.user1_id then game_over p room_num room else done tt

unfoldable pub c_req_boss_explosion_func : ℕ → Packet → Action Game (Unit {0})
unfolding over_in
c_req_boss_explosion_func p (round (c_req_boss_explosion room_num)) = do
  room ← find_room (int_key room_num)
  over_in p room_num room
c_req_boss_explosion_func p _ = fault
