-- ===== src/Framing/Sending.antt =====
-- All bytes of a frame go to the socket: StaticLib1/IOCPSession.cpp:182-205.
use graduation_server.Common.{
  ℕ, ◌+◌, ◌-◌, ◌≤◌, ◌≡◌, refl, sym, ap, ap₂, ◌∙◌, inl, inr, true, none, some, List, [], ◌∷◌, ◌++◌,
  arith, leb, ltb, length, take, drop, take-append, drop-append, if◌then◌else◌, Bool-cases,
  length-append, All,
}
use graduation_server.Common.Words.{
  Bytes, le_bytes, load, store, length-le_bytes, length-load, load-store, load-add,
  load-store_behind,
}
use graduation_server.Stream.{Stream, stream_size, initialize}
use graduation_server.Stream.Cursor.{contents}
use graduation_server.Packet.{Packet, packet_type, encode, fields}
use graduation_server.Packet.Wire.{IsField, wire}
use graduation_server.Analyzer.RoundTrip.{encode-Appends, contents-encode}
use graduation_server.Framing.{IoData, fill_buffer, set_data, wsabuf, send_packet, on_send}

-- The length that counts itself, the type and the fields.
abbrev pub frame : Packet → List ℕ
frame p =
    le_bytes 4 (12 + length (wire (fields p))) ++ (le_bytes 8 (packet_type p) ++ wire (fields p))

buffered : ℕ → List ℕ → Bytes
buffered n bs = store (store (λ _. 0) 0 (le_bytes 4 n)) 4 bs

buffered_lem : (n : ℕ) (bs : List ℕ) → load (buffered n bs) 0 (4 + length bs) ≡ le_bytes 4 n ++ bs
unfolding buffered
buffered_lem n bs =
    load-store_behind (store (λ _. 0) 0 (le_bytes 4 n)) 4 bs
    ∙ ap (λ front. front ++ bs) (rw (length-le_bytes 4 n) at (load-store (λ _. 0) 0 (le_bytes 4 n)))

pub encoded_size :
    (p : Packet)
    → All IsField (fields p)
    → 12 + length (wire (fields p)) ≤ stream_size
    → (encode p initialize).offset ≡ 8 + length (wire (fields p))
unfolding initialize
encoded_size p h room = omega (
  arith,
  (encode-Appends p initialize h (omega arith)).end,
  length-append (le_bytes 8 (packet_type p)) (wire (fields p)),
  length-le_bytes 8 (packet_type p),
)

fill_buffer_lem :
    (s : Stream) (n : ℕ) (bs : List ℕ)
    → 4 + s.offset ≡ n
    → n ≤ stream_size
    → contents s ≡ bs
    → fill_buffer s ≡ some (record { total_bytes = n; current_bytes = 0; buffer = buffered n bs })
unfolding fill_buffer buffered
fill_buffer_lem s n bs e l c =
    let fits : leb (4 + s.offset) stream_size ≡ true = ground (arith, e, l) in
    rw fits (
      ap₂
        (λ (k : ℕ) (t : List ℕ). some (record {
          total_bytes = k;
          current_bytes = 0;
          buffer = store (store (λ _. 0) 0 (le_bytes 4 k)) 4 t;
        }))
        e c)

-- What `send_packet` keeps for a packet that fits.
kept_data :
    (p : Packet)
    → All IsField (fields p)
    → 12 + length (wire (fields p)) ≤ stream_size
    → (b : Bytes) × (send_packet p
        ≡ some (
          some (load b 0 (8 + length (wire (fields p)))),
          record { total_bytes = 12 + length (wire (fields p)); current_bytes = 0; buffer = b },
        ))
      × (load b 0 (12 + length (wire (fields p))) ≡ frame p)
unfolding send_packet set_data
kept_data p h room =
    let n = length (wire (fields p)) in
    let body = le_bytes 8 (packet_type p) ++ wire (fields p) in
    let size = encoded_size p h room in
    let held = contents-encode p h (omega arith) in
    let filled =
      fill_buffer_lem (encode p initialize) (12 + n) body (omega (arith, size)) room held in
    let long : 4 + length body ≡ 12 + n = omega (
      arith,
      length-append (le_bytes 8 (packet_type p)) (wire (fields p)),
      length-le_bytes 8 (packet_type p),
    ) in
    (
      buffered (12 + n) body,
      ground (arith, size, filled, room),
      rw long at (buffered_lem (12 + n) body),
    )

-- The numbers of bytes that went in some calls of `on_send`, together, and the data after these calls.
abbrev pub total : List ℕ → ℕ
total [] = 0
total (k ∷ ks) = k + total ks

unfoldable pub went : List ℕ → IoData → IoData
went [] d = d
went (k ∷ ks) d = went ks (on_send k d).1

on_send_data :
    (k : ℕ) (d : IoData) → (on_send k d).1 ≡ record d { current_bytes = d.current_bytes + k }
unfolding on_send
on_send_data k d = elim (Bool-cases (ltb (d.current_bytes + k) d.total_bytes)) [
  | inl more ↦ rw more refl
  | inr last ↦ rw last refl
]

-- The data with another current byte.
abbrev at_byte : IoData → ℕ → IoData
at_byte d i = record d { current_bytes = i }

went_lem : (ks : List ℕ) (d : IoData) → went ks d ≡ at_byte d (d.current_bytes + total ks)
unfolding went
went_lem [] d =
    let same : d.current_bytes ≡ d.current_bytes + 0 = omega arith in ap (at_byte d) same
went_lem (k ∷ ks) d =
    let regroup : d.current_bytes + k + total ks ≡ d.current_bytes + (k + total ks) = omega arith in
    ap (went ks) (on_send_data k d)
    ∙ went_lem ks (at_byte d (d.current_bytes + k))
    ∙ ap (at_byte d) regroup

load_parts : (b : Bytes) (m k : ℕ) → k ≤ m → load b 0 k ++ load b k (m - k) ≡ load b 0 m
load_parts b m k l =
    let from_zero : k ≡ 0 + k = omega arith in
    ap (λ (i : ℕ). load b 0 k ++ load b i (m - k)) from_zero
    ∙ sym (load-add b 0 k (m - k))
    ∙ ap (load b 0) (omega (arith, l))

-- What is left of loaded bytes behind some of them, and the bytes in front.
load-drop : (b : Bytes) (m k : ℕ) → k ≤ m → load b k (m - k) ≡ drop k (load b 0 m)
load-drop b m k l =
    sym (drop-append k (load b 0 k) (load b k (m - k)) (length-load b 0 k))
    ∙ ap (drop k) (load_parts b m k l)

load-take : (b : Bytes) (m k : ℕ) → k ≤ m → load b 0 k ≡ take k (load b 0 m)
load-take b m k l =
    sym (take-append k (load b 0 k) (load b k (m - k)) (length-load b 0 k))
    ∙ ap (take k) (load_parts b m k l)

-- What `on_send` asks for next, with these bytes in the buffer.
on_send_chunk :
    (k : ℕ) (d : IoData)
    → (on_send k d).0 ≡ (
        if ltb (d.current_bytes + k) d.total_bytes
        then some (drop (d.current_bytes + k) (load d.buffer 0 d.total_bytes))
        else none)
unfolding on_send wsabuf
on_send_chunk k d = elim (Bool-cases (ltb (d.current_bytes + k) d.total_bytes)) [
  | inl more ↦
      rw more (ap some (load-drop d.buffer d.total_bytes (d.current_bytes + k) (ground arith)))
  | inr last ↦ rw last refl
]

-- A packet whose fields are in range and that fits the buffer with its length goes out as its frame: the
-- first chunk is the frame without its last four bytes, and after any calls of `on_send`, by which any
-- numbers of bytes went, the next chunk is what is left of the frame behind these bytes. When all its
-- bytes went, no chunk is asked for.
pub on_send-send_packet :
    (p : Packet) (ks : List ℕ) (k : ℕ)
    → All IsField (fields p)
    → 12 + length (wire (fields p)) ≤ stream_size
    → (d : IoData) × (send_packet p ≡ some (some (take (length (frame p) - 4) (frame p)), d))
      × ((on_send k (went ks d)).0 ≡ (
          if ltb (total ks + k) (length (frame p))
          then some (drop (total ks + k) (frame p))
          else none))
on_send-send_packet p ks k h room =
    let n = length (wire (fields p)) in
    let (b, ran, held) = kept_data p h room in
    let size : length (frame p) ≡ 12 + n = ap length (sym held) ∙ length-load b 0 (12 + n) in
    let d : IoData = record { total_bytes = 12 + n; current_bytes = 0; buffer = b } in
    let first : load b 0 (8 + n) ≡ take (length (frame p) - 4) (frame p) =
      load-take b (12 + n) (8 + n) (omega arith) ∙ ap₂ take (omega (arith, size)) held in
    let after : went ks d ≡ record d { current_bytes = 0 + total ks } = went_lem ks d in
    let none_before : 0 + total ks + k ≡ total ks + k = omega arith in
    (
      d,
      ran ∙ ap (λ chunk. some (some chunk, d)) first,
      ap (λ (e : IoData). (on_send k e).0) after
          ∙ on_send_chunk k (record d { current_bytes = 0 + total ks })
          ∙ rw (none_before, held, size) refl,
    )
