-- ===== src/Packet/Notice/Codec.antt =====
-- The packets of Packet/Notice.antt: what `encode` writes, and what `decode` takes.
use graduation_server.Common.{[], ◌∷◌, ◌^◌, ◌≤◌, ◌<◌, ◌≡◌, ◌⊎◌, inl, refl, All, arith, length}
use graduation_server.Common.Words.{le_bytes}
use graduation_server.Stream.{Stream}
use graduation_server.Stream.Reads.{Reads, Reads-pure, Reads-bind, read_word-Reads, read_str-Reads}
use graduation_server.Packet.Wire.{IsField, wire, word, write_fields}
use graduation_server.Packet.Notice.{
  NoticePacket, type_notice, encode_notice, decode_notice, blank_notice, fields_notice,
  i_chtting_notify_id, i_db_req_load_data, i_db_ans_parse_data, i_login_notify_id_loaded,
}

pub encode_notice-fields :
    (p : NoticePacket) (s : Stream)
    → encode_notice p s ≡ write_fields (word 8 (type_notice p) ∷ fields_notice p) s
unfolding encode_notice type_notice fields_notice write_fields
encode_notice-fields (i_chtting_notify_id client_id oid_account_id) s = refl
encode_notice-fields (i_db_req_load_data client_id oid_account_id) s = refl
encode_notice-fields (i_db_ans_parse_data client_id name result) s = refl
encode_notice-fields (i_login_notify_id_loaded client_id name result) s = refl

pub decode_notice-Reads :
    (p : NoticePacket)
    → All IsField (fields_notice p)
    → Reads (decode_notice (blank_notice p)) (wire (fields_notice p)) p
unfolding decode_notice blank_notice fields_notice wire
decode_notice-Reads (i_chtting_notify_id client_id oid_account_id) h =
    Reads-bind _ (read_word-Reads 8 0 client_id h.0)
      (Reads-bind _ (read_word-Reads 8 0 oid_account_id h.1.0) (Reads-pure _))
decode_notice-Reads (i_db_req_load_data client_id oid_account_id) h =
    Reads-bind _ (read_word-Reads 8 0 client_id h.0)
      (Reads-bind _ (read_word-Reads 8 0 oid_account_id h.1.0) (Reads-pure _))
decode_notice-Reads (i_db_ans_parse_data client_id name result) h =
    Reads-bind _ (read_word-Reads 8 0 client_id h.0) (
      Reads-bind _ (read_str-Reads [] name h.1.0)
        (Reads-bind _ (read_word-Reads 1 0 result h.1.1.0) (Reads-pure _)))
decode_notice-Reads (i_login_notify_id_loaded client_id name result) h =
    Reads-bind _ (read_word-Reads 8 0 client_id h.0) (
      Reads-bind _ (read_str-Reads [] name h.1.0)
        (Reads-bind _ (read_word-Reads 1 0 result h.1.1.0) (Reads-pure _)))

pub type_notice-lt : (p : NoticePacket) → type_notice p < 256 ^ 8
unfolding type_notice
type_notice-lt (i_chtting_notify_id _ _) = omega arith
type_notice-lt (i_db_req_load_data _ _) = omega arith
type_notice-lt (i_db_ans_parse_data _ _ _) = omega arith
type_notice-lt (i_login_notify_id_loaded _ _ _) = omega arith

-- A packet that takes no bytes has no fields.
pub notice_empty : (p : NoticePacket) → (1 ≤ length (wire (fields_notice p))) ⊎ (blank_notice p ≡ p)
unfolding fields_notice blank_notice wire le_bytes
notice_empty (i_chtting_notify_id _ _) = inl (omega arith)
notice_empty (i_db_req_load_data _ _) = inl (omega arith)
notice_empty (i_db_ans_parse_data _ _ _) = inl (omega arith)
notice_empty (i_login_notify_id_loaded _ _ _) = inl (omega arith)
