-- ===== src/Packet/Round.antt =====
-- StaticLib1/PacketClass.h:503-684, the packets of the end of enemies, the boss and the room. A text is the list of its
-- bytes, a number its bit pattern.
pub mod Codec
use graduation_server.Common.{ℕ, List, [], ◌∷◌}
use graduation_server.Stream.{
  Stream, Reader, pure, ◌>>=◌, write_word, write_str, read_word, read_str,
}
use graduation_server.Packet.Wire.{Field, word, str, ◌<<◌}
use graduation_server.Packet.Codes.{
  e_s_ans_make_enemy, e_c_req_enemy_explosion, e_s_ans_enemy_explosion, e_c_req_make_boss,
  e_s_ans_make_boss, e_c_req_boss_explosion, e_s_ans_boss_explosion, e_i_initialize_roommember,
  e_s_req_change_scene, e_s_req_on_game,
}

pub data RoundPacket : Type 0 where
  s_ans_make_enemy : (x : ℕ) → RoundPacket
  c_req_enemy_explosion : (room_num : ℕ) → (enemycount : ℕ) → RoundPacket
  s_ans_enemy_explosion : (room_num : ℕ) → (enemycount : ℕ) → RoundPacket
  c_req_make_boss : (room_num : ℕ) → RoundPacket
  s_ans_make_boss : (room_num : ℕ) → RoundPacket
  c_req_boss_explosion : (room_num : ℕ) → RoundPacket
  s_ans_boss_explosion : (room_num : ℕ) → (ip : List ℕ) → (port : ℕ) → RoundPacket
  i_initialize_roommember : (room_num : ℕ) → (member_count : ℕ) → RoundPacket
  s_req_change_scene : (room_num : ℕ) → RoundPacket
  s_req_on_game : (room_num : ℕ) → RoundPacket

-- `type()` of each class.
unfoldable pub type_round : RoundPacket → ℕ
type_round (s_ans_make_enemy _) = e_s_ans_make_enemy
type_round (c_req_enemy_explosion _ _) = e_c_req_enemy_explosion
type_round (s_ans_enemy_explosion _ _) = e_s_ans_enemy_explosion
type_round (c_req_make_boss _) = e_c_req_make_boss
type_round (s_ans_make_boss _) = e_s_ans_make_boss
type_round (c_req_boss_explosion _) = e_c_req_boss_explosion
type_round (s_ans_boss_explosion _ _ _) = e_s_ans_boss_explosion
type_round (i_initialize_roommember _ _) = e_i_initialize_roommember
type_round (s_req_change_scene _) = e_s_req_change_scene
type_round (s_req_on_game _) = e_s_req_on_game

unfoldable pub encode_round : RoundPacket → Stream → Stream
encode_round (s_ans_make_enemy x) s = s << write_word 8 e_s_ans_make_enemy << write_word 4 x
encode_round (c_req_enemy_explosion room_num enemycount) s =
    s << write_word 8 e_c_req_enemy_explosion << write_word 8 room_num << write_word 8 enemycount
encode_round (s_ans_enemy_explosion room_num enemycount) s =
    s << write_word 8 e_s_ans_enemy_explosion << write_word 8 room_num << write_word 8 enemycount
encode_round (c_req_make_boss room_num) s =
    s << write_word 8 e_c_req_make_boss << write_word 8 room_num
encode_round (s_ans_make_boss room_num) s =
    s << write_word 8 e_s_ans_make_boss << write_word 8 room_num
encode_round (c_req_boss_explosion room_num) s =
    s << write_word 8 e_c_req_boss_explosion << write_word 8 room_num
encode_round (s_ans_boss_explosion room_num ip port) s =
    s
    << write_word 8 e_s_ans_boss_explosion
    << write_word 8 room_num
    << write_str ip
    << write_word 4 port
encode_round (i_initialize_roommember room_num member_count) s =
    s
    << write_word 8 e_i_initialize_roommember
    << write_word 8 room_num
    << write_word 8 member_count
encode_round (s_req_change_scene room_num) s =
    s << write_word 8 e_s_req_change_scene << write_word 8 room_num
encode_round (s_req_on_game room_num) s = s << write_word 8 e_s_req_on_game << write_word 8 room_num

-- `decode` on an object whose fields have the values given. Classes without fields inherit the
-- empty `decode`.
unfoldable pub decode_round : RoundPacket → Reader RoundPacket
decode_round (s_ans_make_enemy x) = do x' ← read_word 4 x; pure (s_ans_make_enemy x')
decode_round (c_req_enemy_explosion room_num enemycount) = do
  room_num' ← read_word 8 room_num
  enemycount' ← read_word 8 enemycount
  pure (c_req_enemy_explosion room_num' enemycount')
decode_round (s_ans_enemy_explosion room_num enemycount) = do
  room_num' ← read_word 8 room_num
  enemycount' ← read_word 8 enemycount
  pure (s_ans_enemy_explosion room_num' enemycount')
decode_round (c_req_make_boss room_num) = do
  room_num' ← read_word 8 room_num
  pure (c_req_make_boss room_num')
decode_round (s_ans_make_boss room_num) = do
  room_num' ← read_word 8 room_num
  pure (s_ans_make_boss room_num')
decode_round (c_req_boss_explosion room_num) = do
  room_num' ← read_word 8 room_num
  pure (c_req_boss_explosion room_num')
decode_round (s_ans_boss_explosion room_num ip port) = do
  room_num' ← read_word 8 room_num
  ip' ← read_str ip
  port' ← read_word 4 port
  pure (s_ans_boss_explosion room_num' ip' port')
decode_round (i_initialize_roommember room_num member_count) = do
  room_num' ← read_word 8 room_num
  member_count' ← read_word 8 member_count
  pure (i_initialize_roommember room_num' member_count')
decode_round (s_req_change_scene room_num) = do
  room_num' ← read_word 8 room_num
  pure (s_req_change_scene room_num')
decode_round (s_req_on_game room_num) = do
  room_num' ← read_word 8 room_num
  pure (s_req_on_game room_num')

-- The object that `new` makes: the fields are zeros and empty texts.
unfoldable pub blank_round : RoundPacket → RoundPacket
blank_round (s_ans_make_enemy _) = s_ans_make_enemy 0
blank_round (c_req_enemy_explosion _ _) = c_req_enemy_explosion 0 0
blank_round (s_ans_enemy_explosion _ _) = s_ans_enemy_explosion 0 0
blank_round (c_req_make_boss _) = c_req_make_boss 0
blank_round (s_ans_make_boss _) = s_ans_make_boss 0
blank_round (c_req_boss_explosion _) = c_req_boss_explosion 0
blank_round (s_ans_boss_explosion _ _ _) = s_ans_boss_explosion 0 [] 0
blank_round (i_initialize_roommember _ _) = i_initialize_roommember 0 0
blank_round (s_req_change_scene _) = s_req_change_scene 0
blank_round (s_req_on_game _) = s_req_on_game 0

-- The wire format: the fields behind the type, in order.
unfoldable pub fields_round : RoundPacket → List Field
fields_round (s_ans_make_enemy x) = word 4 x ∷ []
fields_round (c_req_enemy_explosion room_num enemycount) = word 8 room_num ∷ word 8 enemycount ∷ []
fields_round (s_ans_enemy_explosion room_num enemycount) = word 8 room_num ∷ word 8 enemycount ∷ []
fields_round (c_req_make_boss room_num) = word 8 room_num ∷ []
fields_round (s_ans_make_boss room_num) = word 8 room_num ∷ []
fields_round (c_req_boss_explosion room_num) = word 8 room_num ∷ []
fields_round (s_ans_boss_explosion room_num ip port) = word 8 room_num ∷ str ip ∷ word 4 port ∷ []
fields_round (i_initialize_roommember room_num member_count) =
    word 8 room_num ∷ word 8 member_count ∷ []
fields_round (s_req_change_scene room_num) = word 8 room_num ∷ []
fields_round (s_req_on_game room_num) = word 8 room_num ∷ []
