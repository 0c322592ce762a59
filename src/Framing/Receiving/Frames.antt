-- ===== src/Framing/Receiving/Frames.antt =====
-- Whole frames that arrive together: StaticLib1/IOCPSession.cpp:240-286.
use graduation_server.Common.{
  ℕ, ◌+◌, ◌^◌, ◌≤◌, ◌<◌, ◌≡◌, refl, sym, ap, ◌∙◌, true, false, some, List, [], ◌∷◌, ◌++◌,
  append_assoc, arith, ltb, leb, ◌==◌, length, length-append, All, ended,
}
use graduation_server.Common.Words.{
  Bytes, le_bytes, le_value, load, store, length-le_bytes, le_value-le_bytes, length-load,
  load-store, load_split,
}
use graduation_server.Packet.{Packet, packet_type, fields}
use graduation_server.Packet.Wire.{wire}
use graduation_server.Framing.{IoData, clear}
use graduation_server.Framing.Sending.{frame}
use graduation_server.Framing.Receiving.{
  main_size, Receiver, arrive, packet_len, setup_total_bytes, recv_stand_by, copy_in, unpack,
  stand_by, read_all, on_recv,
}
use graduation_server.Framing.Receiving.Passes.{
  IsSmall, Holds, length-frame, frames, IsPart, unpack-frames,
}

-- Nothing is kept, and the whole buffer was asked for.
pub record IsIdle (r : Receiver) : Type 0 where
  pub at_start : r.io ≡ clear
  pub none_kept : r.main_buffer_offset ≡ 0
  pub asked : r.wanted ≡ (0, 10240)

-- What arrives at an idle receiver is in the buffer for the socket.
arrived :
    (r : Receiver) (bytes : List ℕ)
    → IsIdle r
    → load (arrive bytes r).io.buffer 0 (length bytes) ≡ bytes
arrived r bytes h = rw (h.asked) (load-store r.io.buffer 0 bytes)

pub header_of :
    (b : Bytes) (m : ℕ) (p : Packet) (rest : List ℕ)
    → 12 + length (wire (fields p)) < 2 ^ 31
    → load b 0 m ≡ frame p ++ rest
    → le_value (load b 0 4) ≡ 12 + length (wire (fields p))
header_of b m p rest small e =
    let n = 12 + length (wire (fields p)) in
    let head = le_bytes 4 n in
    let body = le_bytes 8 (packet_type p) ++ wire (fields p) in
    let (front, _, _) = load_split b 0 m head (body ++ rest) (e ∙ append_assoc head body rest) in
    ap (λ (k : ℕ). le_value (load b 0 k)) (sym (length-le_bytes 4 n))
    ∙ ap le_value front
    ∙ le_value-le_bytes 4 n (omega (arith, small))

many_bytes : (ps : List Packet) → length ps ≤ length (frames ps)
many_bytes [] = omega arith
many_bytes (p ∷ ps) =
    omega (arith, many_bytes ps, length-frame p, length-append (frame p) (frames ps))

-- The state before the loop.
abbrev with_bytes : ℕ → Receiver → Receiver
with_bytes n r = record r {
  main_buffer = store r.main_buffer 0 (load r.io.buffer 0 n);
  main_buffer_offset = n;
  io = record r.io { total_bytes = n; current_bytes = n };
}

copy_in_enough :
    (n : ℕ) (r : Receiver)
    → r.main_buffer_offset ≡ 0
    → r.io.current_bytes ≡ n
    → n ≤ main_size
    → copy_in r ≡ some (with_bytes n r)
unfolding copy_in
copy_in_enough n r o c m =
    let none_kept : (r.main_buffer_offset == 0) ≡ true = ground (arith, o) in
    let room : leb n main_size ≡ true = ground (arith, m) in rw (none_kept, c, room) refl

read_copied :
    (offset n : ℕ) (r : Receiver)
    → r.main_buffer_offset ≡ 0
    → r.io.current_bytes ≡ n
    → n ≤ main_size
    → read_all offset r ≡ stand_by (unpack (n + 1) offset (with_bytes n r))
unfolding read_all
read_copied offset n r o c m = rw (read_all, copy_in_enough n r o c m) refl

-- The state in which a receipt of `n` bytes, the first of a frame, goes on.
abbrev pub with_total : ℕ → Receiver → Receiver
with_total n r = record r {
  io = record { total_bytes = packet_len r.io; current_bytes = n; buffer = r.io.buffer };
}

-- The receipt of `n` bytes that hold at least what their header says.
pub on_recv_enough :
    (n : ℕ) (r : Receiver)
    → r.io.total_bytes ≡ 0
    → r.io.current_bytes ≡ 0
    → packet_len r.io ≤ n
    → on_recv n r ≡ read_all 4 (with_total n r)
unfolding on_recv setup_total_bytes
on_recv_enough n r t c l =
    let first : (r.io.total_bytes == 0) ≡ true = ground (arith, t) in
    let whole : ltb n (packet_len r.io) ≡ false = ground (arith, l) in
    let count : r.io.current_bytes + n ≡ n = omega (arith, c) in rw (first, count, whole) refl

-- Bytes that arrive together at an idle receiver and begin with whole frames, at least one, are delivered
-- as the packets of these frames, in order, behind those that were there. What follows the frames and is
-- no whole frame yet is kept, and the receiver asks for the next bytes. Each frame is at most 204 bytes
-- long, the packets are known to the analyzer, and all bytes fit the buffer for the socket.
pub on_recv-frames :
    (r : Receiver) (p : Packet) (ps : List Packet) (rest : List ℕ)
    → IsIdle r
    → All IsSmall (p ∷ ps)
    → IsPart rest
    → length (frames (p ∷ ps) ++ rest) ≤ 10240
    → (v : Receiver) × (on_recv
          (length (frames (p ∷ ps) ++ rest))
          (arrive (frames (p ∷ ps) ++ rest) r)
        ≡ ended v)
      × (v.package_storage ≡ r.package_storage ++ (p ∷ ps))
      × (load v.main_buffer 0 v.main_buffer_offset ≡ rest)
      × (v.main_buffer_offset ≡ length rest)
      × (v.io ≡ clear)
      × (v.wanted ≡ (0, 10240))
unfolding recv_stand_by
on_recv-frames r p ps rest idle s part fits =
    let bytes = frames (p ∷ ps) ++ rest in
    let n = length bytes in
    let there = arrived r bytes idle in
    let header =
      header_of (arrive bytes r).io.buffer n p (frames ps ++ rest) (omega (arith, s.0.small))
        (there ∙ append_assoc (frame p) (frames ps) rest) in
    let sizes : 12 + length (wire (fields p)) + length ps ≤ n = omega (
      arith,
      length-append (frames (p ∷ ps)) rest,
      length-append (frame p) (frames ps),
      length-frame p,
      many_bytes ps,
    ) in
    let len : packet_len (arrive bytes r).io ≡ 12 + length (wire (fields p)) =
      ground (arith, header, s.0.small) in
    let room : n ≤ main_size = omega (arith, fits) in
    let u = with_bytes n (with_total n (arrive bytes r)) in
    let ran =
      on_recv_enough n (arrive bytes r) (ap (λ (d : IoData). d.total_bytes) idle.at_start)
        (ap (λ (d : IoData). d.current_bytes) idle.at_start) (omega (arith, len, sizes))
      ∙ read_copied 4 n (with_total n (arrive bytes r)) idle.none_kept refl room in
    let holds : Holds u bytes = record {
      kept =
          ap (load u.main_buffer 0) (sym (length-load (arrive bytes r).io.buffer 0 n))
          ∙ load-store r.main_buffer 0 (load (arrive bytes r).io.buffer 0 n)
          ∙ there;
      counted = refl;
      total = refl;
      room = room;
    } in
    let (v, ended_in, left, stored_on) =
      unpack-frames (p ∷ ps) (n + 1) u rest (omega (arith, sizes)) s part holds in
    (recv_stand_by v, ran ∙ ap stand_by ended_in, stored_on, left.kept, left.counted, refl, refl)
