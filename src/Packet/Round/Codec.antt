-- ===== src/Packet/Round/Codec.antt =====
-- The packets of Packet/Round.antt: what `encode` writes, and what `decode` takes.
use graduation_server.Common.{[], ◌∷◌, ◌^◌, ◌≤◌, ◌<◌, ◌≡◌, ◌⊎◌, inl, refl, All, arith, length}
use graduation_server.Common.Words.{le_bytes}
use graduation_server.Stream.{Stream}
use graduation_server.Stream.Reads.{Reads, Reads-pure, Reads-bind, read_word-Reads, read_str-Reads}
use graduation_server.Packet.Wire.{IsField, wire, word, write_fields}
use graduation_server.Packet.Round.{
  RoundPacket, type_round, encode_round, decode_round, blank_round, fields_round, s_ans_make_enemy,
  c_req_enemy_explosion, s_ans_enemy_explosion, c_req_make_boss, s_ans_make_boss,
  c_req_boss_explosion, s_ans_boss_explosion, i_initialize_roommember, s_req_change_scene,
  s_req_on_game,
}

pub encode_round-fields :
    (p : RoundPacket) (s : Stream)
    → encode_round p s ≡ write_fields (word 8 (type_round p) ∷ fields_round p) s
unfolding encode_round type_round fields_round write_fields
encode_round-fields (s_ans_make_enemy x) s = refl
encode_round-fields (c_req_enemy_explosion room_num enemycount) s = refl
encode_round-fields (s_ans_enemy_explosion room_num enemycount) s = refl
encode_round-fields (c_req_make_boss room_num) s = refl
encode_round-fields (s_ans_make_boss room_num) s = refl
encode_round-fields (c_req_boss_explosion room_num) s = refl
encode_round-fields (s_ans_boss_explosion room_num ip port) s = refl
encode_round-fields (i_initialize_roommember room_num member_count) s = refl
encode_round-fields (s_req_change_scene room_num) s = refl
encode_round-fields (s_req_on_game room_num) s = refl

pub decode_round-Reads :
    (p : RoundPacket)
    → All IsField (fields_round p)
    → Reads (decode_round (blank_round p)) (wire (fields_round p)) p
unfolding decode_round blank_round fields_round wire
decode_round-Reads (s_ans_make_enemy x) h = Reads-bind _ (read_word-Reads 4 0 x h.0) (Reads-pure _)
decode_round-Reads (c_req_enemy_explosion room_num enemycount) h =
    Reads-bind _ (read_word-Reads 8 0 room_num h.0)
      (Reads-bind _ (read_word-Reads 8 0 enemycount h.1.0) (Reads-pure _))
decode_round-Reads (s_ans_enemy_explosion room_num enemycount) h =
    Reads-bind _ (read_word-Reads 8 0 room_num h.0)
      (Reads-bind _ (read_word-Reads 8 0 enemycount h.1.0) (Reads-pure _))
decode_round-Reads (c_req_make_boss room_num) h =
    Reads-bind _ (read_word-Reads 8 0 room_num h.0) (Reads-pure _)
decode_round-Reads (s_ans_make_boss room_num) h =
    Reads-bind _ (read_word-Reads 8 0 room_num h.0) (Reads-pure _)
decode_round-Reads (c_req_boss_explosion room_num) h =
    Reads-bind _ (read_word-Reads 8 0 room_num h.0) (Reads-pure _)
decode_round-Reads (s_ans_boss_explosion room_num ip port) h =
    Reads-bind _ (read_word-Reads 8 0 room_num h.0) (
      Reads-bind _ (read_str-Reads [] ip h.1.0)
        (Reads-bind _ (read_word-Reads 4 0 port h.1.1.0) (Reads-pure _)))
decode_round-Reads (i_initialize_roommember room_num member_count) h =
    Reads-bind _ (read_word-Reads 8 0 room_num h.0)
      (Reads-bind _ (read_word-Reads 8 0 member_count h.1.0) (Reads-pure _))
decode_round-Reads (s_req_change_scene room_num) h =
    Reads-bind _ (read_word-Reads 8 0 room_num h.0) (Reads-pure _)
decode_round-Reads (s_req_on_game room_num) h =
    Reads-bind _ (read_word-Reads 8 0 room_num h.0) (Reads-pure _)

pub type_round-lt : (p : RoundPacket) → type_round p < 256 ^ 8
unfolding type_round
type_round-lt (s_ans_make_enemy _) = omega arith
type_round-lt (c_req_enemy_explosion _ _) = omega arith
type_round-lt (s_ans_enemy_explosion _ _) = omega arith
type_round-lt (c_req_make_boss _) = omega arith
type_round-lt (s_ans_make_boss _) = omega arith
type_round-lt (c_req_boss_explosion _) = omega arith
type_round-lt (s_ans_boss_explosion _ _ _) = omega arith
type_round-lt (i_initialize_roommember _ _) = omega arith
type_round-lt (s_req_change_scene _) = omega arith
type_round-lt (s_req_on_game _) = omega arith

-- A packet that takes no bytes has no fields.
pub round_empty : (p : RoundPacket) → (1 ≤ length (wire (fields_round p))) ⊎ (blank_round p ≡ p)
unfolding fields_round blank_round wire le_bytes
round_empty (s_ans_make_enemy _) = inl (omega arith)
round_empty (c_req_enemy_explosion _ _) = inl (omega arith)
round_empty (s_ans_enemy_explosion _ _) = inl (omega arith)
round_empty (c_req_make_boss _) = inl (omega arith)
round_empty (s_ans_make_boss _) = inl (omega arith)
round_empty (c_req_boss_explosion _) = inl (omega arith)
round_empty (s_ans_boss_explosion _ _ _) = inl (omega arith)
round_empty (i_initialize_roommember _ _) = inl (omega arith)
round_empty (s_req_change_scene _) = inl (omega arith)
round_empty (s_req_on_game _) = inl (omega arith)
