-- ===== src/Tests/Packets.antt =====
-- Runs of the streams, the packets and the analyzer.
use graduation_server.Common.{
  ℕ, ◌-◌, ◌^◌, ◌≡◌, refl, arith, true, none, some, List, [], ◌∷◌, ◌++◌, All, length, find, take,
  drop,
}
use graduation_server.Common.Words.{load, store, le_bytes, le_value}
use graduation_server.Stream.{
  Stream, initialize, read, read_word, read_size, check_read_bound, read_str, size_of_int32,
  new_buffer,
}
use graduation_server.Stream.Cursor.{contents}
use graduation_server.Stream.Reads.{IsText}
use graduation_server.Stream.Hazards.{read_str_negative}
use graduation_server.Packet.{Packet, account, packet_type, encode, blank, fields, get_packet}
use graduation_server.Packet.Wire.{IsField, wire}
use graduation_server.Packet.Account.{c_req_id_pw}
use graduation_server.Analyzer.{analyzer}
use graduation_server.Framing.{IoData, send_packet, on_send}
use graduation_server.Framing.Sending.{frame, went, on_send-send_packet}
use graduation_server.Analyzer.RoundTrip.{analyzer-encode}

abbrev pub letter_a : List ℕ
letter_a = 97 ∷ []

abbrev pub letter_b : List ℕ
letter_b = 98 ∷ []

abbrev pub sign_in : Packet
sign_in = account (c_req_id_pw letter_a letter_b)

letter_a-IsText : IsText letter_a
letter_a-IsText = record { short = ground arith; chars = ((ground arith, ground arith), tt) }

letter_b-IsText : IsText letter_b
letter_b-IsText = record { short = ground arith; chars = ((ground arith, ground arith), tt) }

pub sign_in-IsField : All IsField (fields sign_in)
unfolding fields
sign_in-IsField = (letter_a-IsText, (letter_b-IsText, tt))

pub sign_in_size : length (wire (fields sign_in)) ≡ 10
unfolding fields wire le_bytes
sign_in_size = refl

pub sign_in_type : packet_type sign_in ≡ 132
unfolding packet_type
sign_in_type = refl

-- One byte lies behind the packet.
analyzer-encode_example :
    analyzer (contents (encode sign_in initialize) ++ (7 ∷ [])) 19 ≡ some (some sign_in)
analyzer-encode_example =
    analyzer-encode sign_in (7 ∷ []) 19 (ground (arith, sign_in_type)) sign_in-IsField
      (omega (arith, sign_in_size)) (omega arith) (omega (arith, sign_in_size))
      (omega (arith, sign_in_size))

-- Eight bytes, of which the second half is the length -1.
abbrev minus_one : ℕ → Stream
minus_one n = record {
  offset = 8;
  read_pt = n;
  bytes = store (λ _. 0) 0 (1 ∷ 0 ∷ 0 ∷ 0 ∷ 255 ∷ 255 ∷ 255 ∷ 255 ∷ []);
}

negative_length : read_size 4 (minus_one 4) ≡ some (2 ^ 32 - 1, minus_one 8)
unfolding read_size read_word read check_read_bound load store le_value
negative_length = refl

read_str_negative_example :
    (check_read_bound (size_of_int32 (2 ^ 32 - 1)) (minus_one 8) ≡ true)
    × (read_str [] (minus_one 4) ≡ none)
    × (new_buffer (2 ^ 32 - 1) ≡ some 0)
read_str_negative_example =
    read_str_negative [] (minus_one 4) (minus_one 8) 1
      (record { reads = ground arith; writes = ground arith }) negative_length (ground arith)
      (ground arith)

-- Six bytes, a length of 2 and one character.
abbrev short_wide : ℕ → Stream
short_wide n = record {
  offset = 6;
  read_pt = n;
  bytes = store (λ _. 0) 0 (2 ∷ 0 ∷ 0 ∷ 0 ∷ 65 ∷ 0 ∷ []);
}

wide_length : read_size 4 (short_wide 0) ≡ some (2, short_wide 4)
unfolding read_size read_word read check_read_bound load store le_value
wide_length = refl

made : get_packet 132 ≡ some (blank sign_in)
unfolding get_packet blank find
made = refl

pub frame_size : length (frame sign_in) ≡ 22
unfolding fields wire le_bytes
frame_size = refl

-- Ten bytes went, then eight: the last four are left.
on_send-send_packet_example :
    (d : IoData) × (send_packet sign_in ≡ some (some (take 18 (frame sign_in)), d))
    × ((on_send 8 (went (10 ∷ []) d)).0 ≡ some (drop 18 (frame sign_in)))
unfolding fields wire le_bytes
on_send-send_packet_example =
    on_send-send_packet sign_in (10 ∷ []) 8 sign_in-IsField (omega (arith, sign_in_size))
