-- ===== src/Framing/Receiving/Parts.antt =====
-- Frames that arrive in parts, bytes that were kept, and the end of the loop: StaticLib1/IOCPSession.cpp
-- :19-51 and 227-288.
use graduation_server.Common.{
  ℕ, zero, suc, ◌≤◌, ◌<◌, ◌≡◌, ◌≢◌, inl, inr, Bool-cases, Option-cases, refl, sym, ap, ◌∙◌, true,
  false, none, some, List, arith, ltb, ◌==◌, ==_ne, length, aborted, running,
}
use graduation_server.Packet.{Packet}
use graduation_server.Framing.{IoData, clear}
use graduation_server.Framing.Receiving.{
  Receiver, arrive, packet_len, copy_in, take_package, fits_data, front_packet, front_len, unpack,
  read_all, on_recv,
}
use graduation_server.Framing.Receiving.Frames.{with_total, on_recv_enough}

-- A packet in front has four bytes at least.
front_size : (offset n : ℕ) (r : Receiver) (p : Packet) → front_packet offset n r ≡ some p → 4 ≤ n
unfolding front_packet
front_size offset n r p e = elim (Bool-cases (fits_data n)) [
  | inl f ↦ sized n f
  | inr f ↦ absurd (none_some (sym (rw (f) at e)))
]
  where
    sized : (k : ℕ) → fits_data k ≡ true → 4 ≤ k
    sized k h = ground arith

    none_some : {q : Packet} → some q ≢ none
    none_some h = cc

-- The loop ends, in one way or the other, before its passes outnumber the bytes that are kept.
pub unpack_ends :
    (fuel offset : ℕ) (r : Receiver) → r.main_buffer_offset < fuel → unpack fuel offset r ≢ running
unfolding unpack take_package
unpack_ends zero offset r l = absurd (omega arith)
unpack_ends (suc fuel) offset r l = elim (Bool-cases (ltb r.main_buffer_offset 8)) [
  | inl few ↦ rw (few) (λ e. cc)
  | inr enough ↦ elim (Bool-cases (ltb r.io.total_bytes (front_len r))) [
    | inl over ↦ rw (enough, over) (λ e. cc)
    | inr whole ↦ elim (Option-cases (front_packet offset (front_len r) r)) [
      | inl e ↦ rw (enough, whole, e) (λ f. cc)
      | inr (p, e) ↦
          rw (enough, whole, e)
            (unpack_ends fuel offset (take_package (front_len r) p r)
              (omega (arith, front_size offset (front_len r) r p e, l, enough_bytes r enough)))
    ]
  ]
]
  where
    enough_bytes : (s : Receiver) → ltb s.main_buffer_offset 8 ≡ false → 8 ≤ s.main_buffer_offset
    enough_bytes s h = ground arith

-- Where bytes of an earlier receipt are kept, the next receipt that holds what its header says writes
-- outside the buffer.
pub on_recv_kept :
    (bytes : List ℕ) (r : Receiver)
    → r.io ≡ clear
    → r.main_buffer_offset ≢ 0
    → packet_len (arrive bytes r).io ≤ length bytes
    → on_recv (length bytes) (arrive bytes r) ≡ aborted
unfolding read_all copy_in
on_recv_kept bytes r fresh kept whole =
    let held : (r.main_buffer_offset == 0) ≡ false = ==_ne r.main_buffer_offset 0 kept in
    let refused : copy_in (with_total (length bytes) (arrive bytes r)) ≡ none = rw (held) refl in
    on_recv_enough (length bytes) (arrive bytes r) (ap (λ (d : IoData). d.total_bytes) fresh)
      (ap (λ (d : IoData). d.current_bytes) fresh) whole
    ∙ rw (read_all, refused) refl
