-- ===== src/Framing/Receiving/Passes.antt =====
-- One pass after the other over whole frames in the buffer: StaticLib1/IOCPSession.cpp:243-284.
use graduation_server.Common.{
  ℕ, zero, suc, ◌+◌, ◌-◌, ◌≤◌, ◌<◌, ◌≡◌, ◌≢◌, ◌⊎◌, inl, inr, Bool-cases, refl, sym, ap, ap₂, ◌∙◌,
  true, false, some, List, [], ◌∷◌, ◌++◌, append-nil, append_assoc, arith, ltb, if◌then◌else◌,
  length, length-append, take, take-append, All, ended, lt→ltb,
}
use graduation_server.Common.Words.{
  Bytes, le_bytes, le_value, load, length-le_bytes, le_value-le_bytes, length-load, load-add,
  load_split,
}
use graduation_server.Packet.{Packet, packet_type, fields}
use graduation_server.Packet.Codes.{e_s_notify_server_ip}
use graduation_server.Packet.Wire.{IsField, wire}
use graduation_server.Analyzer.RoundTrip.{analyzer-encode, contents-encode}
use graduation_server.Framing.Sending.{frame}
use graduation_server.Framing.Receiving.{
  main_size, Receiver, zeros, packet_data, take_package, fits_data, front_packet, front_len, unpack,
}

-- A packet that the analyzer knows and whose frame is at most 204 bytes long.
pub record IsSmall (p : Packet) : Type 0 where
  pub known : packet_type p ≢ e_s_notify_server_ip
  pub in_range : All IsField (fields p)
  pub small : 12 + length (wire (fields p)) ≤ 204

-- The first bytes of the buffer, so many as there are, and both counts of them.
pub record Holds (r : Receiver) (bytes : List ℕ) : Type 0 where
  pub kept : load r.main_buffer 0 r.main_buffer_offset ≡ bytes
  pub counted : r.main_buffer_offset ≡ length bytes
  pub total : r.io.total_bytes ≡ length bytes
  pub room : length bytes ≤ main_size

pub length-frame : (p : Packet) → length (frame p) ≡ 12 + length (wire (fields p))
length-frame p = omega (
  arith,
  length-append (le_bytes 4 (12 + length (wire (fields p))))
      (le_bytes 8 (packet_type p) ++ wire (fields p)),
  length-append (le_bytes 8 (packet_type p)) (wire (fields p)),
  length-le_bytes 4 (12 + length (wire (fields p))),
  length-le_bytes 8 (packet_type p),
)

-- What a buffer that begins with a frame has as its first length, its payload and the rest.
record Begins (r : Receiver) (p : Packet) (rest : List ℕ) : Type 0 where
  header : front_len r ≡ 12 + length (wire (fields p))
  payload :
      load r.main_buffer 4 (8 + length (wire (fields p)))
      ≡ le_bytes 8 (packet_type p) ++ wire (fields p)
  behind : load r.main_buffer (12 + length (wire (fields p))) (length rest) ≡ rest

begins :
    (r : Receiver) (p : Packet) (rest : List ℕ)
    → IsSmall p
    → Holds r (frame p ++ rest)
    → Begins r p rest
begins r p rest s h =
    let n = 12 + length (wire (fields p)) in
    let head = le_bytes 4 n in
    let body = le_bytes 8 (packet_type p) ++ wire (fields p) in
    let whole : load r.main_buffer 0 r.main_buffer_offset ≡ head ++ (body ++ rest) =
      h.kept ∙ append_assoc head body rest in
    let (front, more, _) =
      load_split r.main_buffer 0 r.main_buffer_offset head (body ++ rest) whole in
    let (inner, last, _) =
      load_split r.main_buffer (0 + length head) (r.main_buffer_offset - length head) body rest
        more in
    let four : length head ≡ 4 = length-le_bytes 4 n in
    let body_size : length body ≡ 8 + length (wire (fields p)) = omega (
      arith,
      length-append (le_bytes 8 (packet_type p)) (wire (fields p)),
      length-le_bytes 8 (packet_type p),
    ) in
    let all : length (frame p ++ rest) ≡ n + length rest =
      length-append (frame p) rest ∙ ap (λ (k : ℕ). k + length rest) (length-frame p) in
    record {
      header =
          ap (λ (k : ℕ). le_value (load r.main_buffer 0 k)) (sym four)
          ∙ ap le_value front
          ∙ le_value-le_bytes 4 n (omega (arith, s.small));
      payload = ap₂ (load r.main_buffer) (omega (arith, four)) (sym body_size) ∙ inner;
      behind =
          ap₂ (load r.main_buffer) (omega (arith, four, body_size))
            (omega (arith, four, body_size, all, h.counted))
          ∙ last;
    }

load_moved :
    (b : Bytes) (n i k : ℕ)
    → i + k ≤ main_size - n
    → load (λ j. if ltb j (main_size - n) then b (j + n) else b j) i k ≡ load b (i + n) k
unfolding load
load_moved b n i zero h = refl
load_moved b n i (suc k) h =
    let inside : ltb i (main_size - n) ≡ true = lt→ltb i (main_size - n) (omega arith) in
    rw (inside) (
      ap (◌∷◌ (b (i + n)))
        (load_moved b n (i + 1) k (omega arith) ∙ ap (λ (j : ℕ). load b j k) (omega arith)))

front_known :
    (r : Receiver) (p : Packet) (rest : List ℕ)
    → IsSmall p
    → Begins r p rest
    → front_packet 4 (front_len r) r ≡ some p
unfolding front_packet packet_data
front_known r p rest s b =
    let n = 12 + length (wire (fields p)) in
    let sized : fits_data n ≡ true = ground (arith, s.small) in
    let size : n - 4 ≡ 8 + length (wire (fields p)) = omega arith in
    let encoded = contents-encode p s.in_range (omega (arith, s.small)) in
    let analyzed =
      analyzer-encode p (zeros (200 - (8 + length (wire (fields p)))))
        (8 + length (wire (fields p))) s.known s.in_range (omega arith) (omega (arith, s.small))
        (omega (arith, s.small)) (omega arith) in
    let exact = rw (encoded) at analyzed in rw (b.header, sized, size, b.payload, exact) refl

-- The pass over a frame in front stores its packet and leaves the bytes behind it.
pass :
    (fuel : ℕ) (r : Receiver) (p : Packet) (rest : List ℕ)
    → IsSmall p
    → Holds r (frame p ++ rest)
    → (v : Receiver) × (unpack (suc fuel) 4 r ≡ unpack fuel 4 v)
      × Holds v rest
      × (v.package_storage ≡ r.package_storage ++ (p ∷ []))
unfolding unpack take_package
pass fuel r p rest s h =
    let n = 12 + length (wire (fields p)) in
    let b = begins r p rest s h in
    let all : length (frame p ++ rest) ≡ n + length rest =
      length-append (frame p) rest ∙ ap (λ (k : ℕ). k + length rest) (length-frame p) in
    let enough : ltb r.main_buffer_offset 8 ≡ false = ground (arith, all, h.counted) in
    let complete : ltb r.io.total_bytes (front_len r) ≡ false =
      ground (arith, all, h.total, b.header) in
    (
      take_package (front_len r) p r,
      rw (enough, complete, front_known r p rest s b) refl,
      rw (b.header) (record {
        kept =
            load_moved r.main_buffer n 0 (r.main_buffer_offset - n)
              (omega (arith, all, h.counted, h.room))
            ∙ ap₂ (load r.main_buffer) (omega arith) (omega (arith, all, h.counted))
            ∙ b.behind;
        counted = omega (arith, all, h.counted);
        total = omega (arith, all, h.counted);
        room = omega (arith, all, h.room);
      }),
      refl,
    )

-- The frames of packets, one behind the other.
abbrev pub frames : List Packet → List ℕ
frames [] = []
frames (p ∷ ps) = frame p ++ frames ps

-- Bytes that are no whole frame yet: fewer than eight, or fewer than their length says.
abbrev pub IsPart : List ℕ → Type 0
IsPart bytes = (length bytes < 8) ⊎ (length bytes < le_value (take 4 bytes))

enough_lem : (r : Receiver) → ltb r.main_buffer_offset 8 ≡ false → 8 ≤ r.main_buffer_offset
enough_lem r h = ground arith

part_ends :
    (fuel : ℕ) (r : Receiver) (rest : List ℕ)
    → Holds r rest
    → IsPart rest
    → unpack (suc fuel) 4 r ≡ ended r
unfolding unpack
part_ends fuel r rest h (inl short) =
    let few : ltb r.main_buffer_offset 8 ≡ true = ground (arith, h.counted, short) in rw (few) refl
part_ends fuel r rest h (inr long) = elim (Bool-cases (ltb r.main_buffer_offset 8)) [
  | inl few ↦ rw (few) refl
  | inr enough ↦
      let header : front_len r ≡ le_value (take 4 rest) = ap le_value (
        sym (
          take-append 4 (load r.main_buffer 0 4) (load r.main_buffer 4 (r.main_buffer_offset - 4))
            (length-load r.main_buffer 0 4))
        ∙ ap (take 4) (
            sym (load-add r.main_buffer 0 4 (r.main_buffer_offset - 4))
            ∙ ap (load r.main_buffer 0) (omega (arith, enough_lem r enough))
            ∙ h.kept)) in
      let over : ltb r.io.total_bytes (front_len r) ≡ true =
        ground (arith, h.total, header, long) in
      rw (enough, over) refl
]

pub unpack-frames :
    (ps : List Packet) (fuel : ℕ) (r : Receiver) (rest : List ℕ)
    → length ps < fuel
    → All IsSmall ps
    → IsPart rest
    → Holds r (frames ps ++ rest)
    → (v : Receiver) × (unpack fuel 4 r ≡ ended v)
      × Holds v rest
      × (v.package_storage ≡ r.package_storage ++ ps)
unpack-frames ps zero r rest l s t h = absurd (omega arith)
unpack-frames [] (suc fuel) r rest l s t h =
    (r, part_ends fuel r rest h t, h, sym (append-nil r.package_storage))
unpack-frames (p ∷ ps) (suc fuel) r rest l s t h =
    let (u, ran, held, stored) =
      pass fuel r p (frames ps ++ rest) (s.0) (rw (append_assoc (frame p) (frames ps) rest) at h) in
    let (v, ran_on, left, stored_on) = unpack-frames ps fuel u rest (omega arith) (s.1) t held in
    (
      v,
      ran ∙ ran_on,
      left,
      stored_on ∙ ap (λ qs. qs ++ ps) stored ∙ append_assoc r.package_storage (p ∷ []) ps,
    )
