-- ===== src/InGame/Handlers/Keeping.antt =====
-- InGameServer/InGameProcess.cpp:124-341: no handler of a running match breaks the session manager.
use graduation_server.Common.{ℕ, Option, none, some}
use graduation_server.Packet.{Packet, battle, round}
use graduation_server.Packet.Battle.{c_req_player_move, c_req_fire_bullet, c_req_make_enemy}
use graduation_server.Packet.Round.{c_req_enemy_explosion, c_req_make_boss, c_req_boss_explosion}
use graduation_server.Contents.Keeping.{Keeps, Keeps-fault, keeps_rules}
use graduation_server.InGame.{Room}
use graduation_server.InGame.Handlers.{
  send_if, move_in, c_req_player_move_func, fire_in, c_req_fire_bullet_func, enemy_to, enemy_in,
  c_req_make_enemy_func, explode, explode_in, c_req_enemy_explosion_func, tell_both, boss_in,
  c_req_make_boss_func, game_over, over_in, c_req_boss_explosion_func,
}
use graduation_server.InGame.Keeping.{rooms_rules}

module _ {max : ℕ} where
  send_if-Keeps : (p : Option ℕ) (packet : Packet) → Keeps max (send_if p packet)
  unfolding send_if
  send_if-Keeps none packet = search keeps_rules
  send_if-Keeps (some p) packet = search keeps_rules

  move_in-Keeps : (p : ℕ) (packet : Packet) (room : Option Room) → Keeps max (move_in p packet room)
  unfolding move_in
  move_in-Keeps p packet none = search keeps_rules
  move_in-Keeps p packet (some room) = search (rooms_rules, send_if-Keeps)

  pub c_req_player_move-Keeps :
      (p : ℕ) (packet : Packet) → Keeps max (c_req_player_move_func p packet)
  unfolding c_req_player_move_func
  c_req_player_move-Keeps p (battle (c_req_player_move room_num x y)) =
      search (rooms_rules, move_in-Keeps)
  c_req_player_move-Keeps p _ = Keeps-fault

  fire_in-Keeps : (p : ℕ) (packet : Packet) (room : Option Room) → Keeps max (fire_in p packet room)
  unfolding fire_in
  fire_in-Keeps p packet none = search keeps_rules
  fire_in-Keeps p packet (some room) = search rooms_rules

  pub c_req_fire_bullet-Keeps :
      (p : ℕ) (packet : Packet) → Keeps max (c_req_fire_bullet_func p packet)
  unfolding c_req_fire_bullet_func
  c_req_fire_bullet-Keeps p (battle (c_req_fire_bullet room_num x y)) =
      search (rooms_rules, fire_in-Keeps)
  c_req_fire_bullet-Keeps p _ = Keeps-fault

  enemy_to-Keeps : (p : ℕ) (q : Option ℕ) (packet : Packet) → Keeps max (enemy_to p q packet)
  unfolding enemy_to
  enemy_to-Keeps p none packet = search keeps_rules
  enemy_to-Keeps p (some q) packet = search keeps_rules

  enemy_in-Keeps :
      (p : ℕ) (packet : Packet) (room : Option Room) → Keeps max (enemy_in p packet room)
  unfolding enemy_in
  enemy_in-Keeps p packet none = search keeps_rules
  enemy_in-Keeps p packet (some room) = search (rooms_rules, enemy_to-Keeps)

  pub c_req_make_enemy-Keeps :
      (p : ℕ) (packet : Packet) → Keeps max (c_req_make_enemy_func p packet)
  unfolding c_req_make_enemy_func
  c_req_make_enemy-Keeps p (battle (c_req_make_enemy room_num x)) =
      search (rooms_rules, enemy_in-Keeps)
  c_req_make_enemy-Keeps p _ = Keeps-fault

  explode-Keeps :
      (p room_num enemycount : ℕ) (room : Room) → Keeps max (explode p room_num enemycount room)
  unfolding explode
  explode-Keeps p room_num enemycount room = search rooms_rules

  explode_in-Keeps :
      (p room_num enemycount : ℕ) (room : Option Room)
      → Keeps max (explode_in p room_num enemycount room)
  unfolding explode_in
  explode_in-Keeps p room_num enemycount none = search keeps_rules
  explode_in-Keeps p room_num enemycount (some room) = search (rooms_rules, explode-Keeps)

  pub c_req_enemy_explosion-Keeps :
      (p : ℕ) (packet : Packet) → Keeps max (c_req_enemy_explosion_func p packet)
  unfolding c_req_enemy_explosion_func
  c_req_enemy_explosion-Keeps p (round (c_req_enemy_explosion room_num enemycount)) =
      search (rooms_rules, explode_in-Keeps)
  c_req_enemy_explosion-Keeps p _ = Keeps-fault

  tell_both-Keeps : (p : ℕ) (packet : Packet) (room : Room) → Keeps max (tell_both p packet room)
  unfolding tell_both
  tell_both-Keeps p packet room = search rooms_rules

  boss_in-Keeps : (p : ℕ) (packet : Packet) (room : Option Room) → Keeps max (boss_in p packet room)
  unfolding boss_in
  boss_in-Keeps p packet none = search keeps_rules
  boss_in-Keeps p packet (some room) = search (rooms_rules, tell_both-Keeps)

  pub c_req_make_boss-Keeps : (p : ℕ) (packet : Packet) → Keeps max (c_req_make_boss_func p packet)
  unfolding c_req_make_boss_func
  c_req_make_boss-Keeps p (round (c_req_make_boss room_num)) = search (rooms_rules, boss_in-Keeps)
  c_req_make_boss-Keeps p _ = Keeps-fault

  game_over-Keeps : (p room_num : ℕ) (room : Room) → Keeps max (game_over p room_num room)
  unfolding game_over
  game_over-Keeps p room_num room = search (rooms_rules, tell_both-Keeps) depth 8

  over_in-Keeps : (p room_num : ℕ) (room : Option Room) → Keeps max (over_in p room_num room)
  unfolding over_in
  over_in-Keeps p room_num none = search keeps_rules
  over_in-Keeps p room_num (some room) = search (rooms_rules, game_over-Keeps)

  pub c_req_boss_explosion-Keeps :
      (p : ℕ) (packet : Packet) → Keeps max (c_req_boss_explosion_func p packet)
  unfolding c_req_boss_explosion_func
  c_req_boss_explosion-Keeps p (round (c_req_boss_explosion room_num)) =
      search (rooms_rules, over_in-Keeps)
  c_req_boss_explosion-Keeps p _ = Keeps-fault
