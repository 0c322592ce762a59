-- ===== src/Framing/Between/Delivery.antt =====
-- What StaticLib1/TerminalSession.cpp delivers of the frames that come between servers.
use graduation_server.Common.{
  ℕ, zero, suc, ◌+◌, ◌-◌, ◌≤◌, ◌<◌, ◌≡◌, ◌≢◌, inl, inr, Bool-cases, refl, sym, ap, ap₂, ◌∙◌, true,
  false, Option, some, List, [], ◌∷◌, ◌++◌, append-nil, append_assoc, arith, ltb, leb, lt→ltb,
  length, length-append, take, drop, take-append, drop-append, All, ended, aborted, running,
}
use graduation_server.Common.Words.{
  Bytes, le_bytes, le_value, load, store, sign_extend, length-load, load-store, load-store_behind,
  load-add, load_split, length-le_bytes, le_value-le_bytes,
}
use graduation_server.Stream.{stream_size, initialize}
use graduation_server.Packet.{Packet, packet_type, encode, fields}
use graduation_server.Packet.Codes.{e_s_notify_server_ip}
use graduation_server.Packet.Wire.{IsField, wire}
use graduation_server.Analyzer.{analyzer}
use graduation_server.Analyzer.RoundTrip.{analyzer-encode, contents-encode}
use graduation_server.Framing.Sending.{frame, encoded_size}
use graduation_server.Framing.Receiving.Passes.{length-frame}
use graduation_server.Framing.Between.{
  send_between, join, Recv, came, calls, gather, wanted_len, row_data, analyze, with_rest,
  recv_between,
}

gather_reaches :
    (len : ℕ) (got : List ℕ) (cs : List (List ℕ))
    → len ≤ length (got ++ join cs)
    → (all : List ℕ) × (rest : List (List ℕ)) × (gather len got (calls cs)
        ≡ ended (all, calls rest))
      × (len ≤ length all)
      × (all ++ join rest ≡ got ++ join cs)
unfolding gather
gather_reaches len got [] l =
    let full : len ≤ length got = omega (arith, l, length-append got []) in
    let enough : ltb (length got) len ≡ false = ground (arith, full) in
    (got, [], rw (enough) refl, full, refl)
gather_reaches len got (c ∷ cs) l = elim (Bool-cases (ltb (length got) len)) [
  | inl more ↦
      let (all, rest, ran, full, same) =
        gather_reaches len (got ++ c) cs
          (omega (arith, l, ap length (append_assoc got c (join cs)))) in
      (all, rest, rw (more) ran, full, same ∙ append_assoc got c (join cs))
  | inr enough ↦ (got, c ∷ cs, rw (enough) refl, not_less (length got) len enough, refl)
]
  where
    not_less : (m n : ℕ) → ltb m n ≡ false → n ≤ m
    not_less m n h = ground arith

-- A text that is as long as the beginning of an equal one has this beginning.
prefix_of :
    (xs ys zs ws : List ℕ)
    → xs ++ ys ≡ zs ++ ws
    → length zs ≤ length xs
    → (t : List ℕ) × (xs ≡ zs ++ t)
prefix_of xs ys [] ws e l = (xs, refl)
prefix_of [] ys (z ∷ zs) ws e l = absurd (omega arith)
prefix_of (x ∷ xs) ys (z ∷ zs) ws e l =
    let (t, f) = prefix_of xs ys zs ws (tails e) (omega arith) in (t, ap₂ ◌∷◌ (heads e) f)
  where
    heads : {a b : ℕ} {us vs : List ℕ} → a ∷ us ≡ b ∷ vs → a ≡ b
    heads h = cc

    tails : {a b : ℕ} {us vs : List ℕ} → a ∷ us ≡ b ∷ vs → us ≡ vs
    tails h = cc

take_front : (n : ℕ) (xs ys : List ℕ) → n ≤ length xs → take n (xs ++ ys) ≡ take n xs
take_front zero xs ys l = refl
take_front (suc n) [] ys l = absurd (omega arith)
take_front (suc n) (x ∷ xs) ys l = ap (λ t. x ∷ t) (take_front n xs ys (omega arith))

cancel : (zs xs ys : List ℕ) → zs ++ xs ≡ zs ++ ys → xs ≡ ys
cancel zs xs ys e =
    sym (drop-append (length zs) zs xs refl)
    ∙ ap (drop (length zs)) e
    ∙ drop-append (length zs) zs ys refl

analyze-frame :
    (leftover : Bytes) (p : Packet) (extra : List ℕ)
    → packet_type p ≢ e_s_notify_server_ip
    → All IsField (fields p)
    → 16 + length (wire (fields p)) ≤ stream_size
    → analyze leftover (frame p ++ extra) ≡ ended (some p)
unfolding analyze
analyze-frame leftover p extra known h room =
    let n = 12 + length (wire (fields p)) in
    let head = le_bytes 4 n in
    let body = le_bytes 8 (packet_type p) ++ wire (fields p) in
    let behind =
      load leftover (length (frame p ++ extra)) (stream_size - length (frame p ++ extra)) in
    let row : row_data leftover (frame p ++ extra) ≡ head ++ (body ++ (extra ++ behind)) =
      append_assoc (frame p) extra behind ∙ append_assoc head body (extra ++ behind) in
    let four : length head ≡ 4 = length-le_bytes 4 n in
    let front : le_value (take 4 (row_data leftover (frame p ++ extra))) ≡ n =
      ap (λ t. le_value (take 4 t)) row
      ∙ ap le_value (take-append 4 head (body ++ (extra ++ behind)) four)
      ∙ le_value-le_bytes 4 n (omega (arith, room)) in
    let len : sign_extend (le_value (take 4 (row_data leftover (frame p ++ extra)))) ≡ n =
      ground (arith, front, room) in
    let back : drop 4 (row_data leftover (frame p ++ extra)) ≡ body ++ (extra ++ behind) =
      ap (drop 4) row ∙ drop-append 4 head (body ++ (extra ++ behind)) four in
    let long : 4 ≤ length (extra ++ behind) = omega (
      arith,
      length-append extra behind,
      length-append (frame p) extra,
      length-frame p,
      length-load leftover (length (frame p ++ extra)) (stream_size - length (frame p ++ extra)),
      room,
    ) in
    let encoded = contents-encode p h (omega (arith, room)) in
    let analyzed =
      analyzer-encode p (extra ++ behind) n known h (omega arith) (omega (arith, room))
        (omega (arith, room)) (omega (arith, long)) in
    let exact : analyzer (body ++ (extra ++ behind)) n ≡ some (some p) = rw (encoded) at analyzed in
    rw (analyze, len, back, exact) refl

recv_gathered :
    (leftover : Bytes) (b : ℕ) (bs : List ℕ) (cs : List Recv) (n : ℕ) (got : List ℕ)
    (rest : List Recv) (packet : Option Packet)
    → wanted_len (le_value (take 4 (row_data leftover (b ∷ bs)))) ≡ n
    → gather n (b ∷ bs) cs ≡ ended (got, rest)
    → analyze leftover got ≡ ended packet
    → recv_between leftover (came (b ∷ bs) ∷ cs) ≡ ended (packet, rest)
unfolding recv_between
recv_gathered leftover b bs cs n got rest packet wanted ran done =
    ap
      (λ k. elim (gather k (b ∷ bs) cs) [
        | ended (all, more) ↦ with_rest more (analyze leftover all)
        | aborted ↦ aborted
        | running ↦ running
      ])
      wanted
    ∙ rw (ran, done) refl

-- A frame that comes whole, in any chunks the first of which has four bytes at least, by calls of which none
-- fails, gives its packet, whatever comes behind it. What follows the frame in the last chunk that was taken is lost: the rest of
-- the chunks begins after it. The packet is known to the analyzer, and its frame leaves four bytes of the
-- array.
pub recv_between-frame :
    (leftover : Bytes) (p : Packet) (first : List ℕ) (cs : List (List ℕ)) (more : List ℕ)
    → packet_type p ≢ e_s_notify_server_ip
    → All IsField (fields p)
    → 16 + length (wire (fields p)) ≤ stream_size
    → 4 ≤ length first
    → first ++ join cs ≡ frame p ++ more
    → (rest : List (List ℕ)) × (lost : List ℕ) × (recv_between leftover (calls (first ∷ cs))
        ≡ ended (some p, calls rest))
      × (lost ++ join rest ≡ more)
recv_between-frame leftover p [] cs more known h room l e = absurd (omega arith)
recv_between-frame leftover p (b ∷ bs) cs more known h room l e =
    let n = 12 + length (wire (fields p)) in
    let head = le_bytes 4 n in
    let body = le_bytes 8 (packet_type p) ++ wire (fields p) in
    let wanted : wanted_len (le_value (take 4 (row_data leftover (b ∷ bs)))) ≡ n =
      let front : le_value (take 4 (row_data leftover (b ∷ bs))) ≡ n =
        ap le_value (
          take_front 4 (b ∷ bs) (load leftover (length (b ∷ bs)) (stream_size - length (b ∷ bs))) l
          ∙ sym (take_front 4 (b ∷ bs) (join cs) l)
          ∙ ap (take 4) (e ∙ append_assoc head body more)
          ∙ take-append 4 head (body ++ more) (length-le_bytes 4 n))
        ∙ le_value-le_bytes 4 n (omega (arith, room)) in
      ground (arith, front, room) in
    let size : n ≤ length ((b ∷ bs) ++ join cs) =
      omega (arith, ap length e, length-append (frame p) more, length-frame p) in
    let (got, rest, ran, full, same) = gather_reaches n (b ∷ bs) cs size in
    let (lost, begins) =
      prefix_of got (join rest) (frame p) more (same ∙ e) (omega (arith, full, length-frame p)) in
    (
      rest,
      lost,
      recv_gathered leftover b bs (calls cs) n got (calls rest) (some p) wanted ran
          (ap (analyze leftover) begins ∙ analyze-frame leftover p lost known h room),
      cancel (frame p) (lost ++ join rest) more (
          sym (append_assoc (frame p) lost (join rest))
          ∙ ap (λ t. t ++ join rest) (sym begins)
          ∙ same
          ∙ e),
    )

-- So many calls of `::recv` after the other side has closed.
abbrev pub closed : ℕ → List Recv
closed zero = []
closed (suc n) = came [] ∷ closed n

gather-closed : (n len : ℕ) (got : List ℕ) → length got < len → gather len got (closed n) ≡ running
unfolding gather
gather-closed zero len got l =
    let more : ltb (length got) len ≡ true = lt→ltb (length got) len l in rw (more) refl
gather-closed (suc n) len got l =
    let more : ltb (length got) len ≡ true = lt→ltb (length got) len l in
    rw (more, append-nil got) (gather-closed n len got l)

-- Where the other side closes within a frame, the loop calls `::recv` for ever: after any number of calls
-- it runs still.
pub recv_between-closed :
    (leftover : Bytes) (b : ℕ) (bs : List ℕ) (n : ℕ)
    → length (b ∷ bs) < wanted_len (le_value (take 4 (row_data leftover (b ∷ bs))))
    → recv_between leftover (came (b ∷ bs) ∷ closed n) ≡ running
unfolding recv_between
recv_between-closed leftover b bs n short =
    rw
      (
        recv_between,
        gather-closed n (wanted_len (le_value (take 4 (row_data leftover (b ∷ bs))))) (b ∷ bs)
            short,
      )
      refl

-- The array begins with the frame, however many bytes more were copied.
sent_buffer :
    (junk head : Bytes) (header : List ℕ) (o : ℕ)
    → length header ≡ 4
    → load (store (store junk 0 header) 4 (load head 0 (4 + o))) 0 (4 + o) ≡ header ++ load head 0 o
sent_buffer junk head header o four =
    let first = store junk 0 header in
    let buffer = store first 4 (load head 0 (4 + o)) in
    let all : load buffer 0 (4 + length (load head 0 (4 + o)))
        ≡ (header ++ load head 0 o) ++ load head (0 + o) 4 =
      load-store_behind first 4 (load head 0 (4 + o))
      ∙ ap₂ ◌++◌ (ap (load first 0) (sym four) ∙ load-store junk 0 header)
          (ap (load head 0) (omega arith) ∙ load-add head 0 o 4)
      ∙ sym (append_assoc header (load head 0 o) (load head (0 + o) 4)) in
    let (front, _, _) =
      load_split buffer 0 (4 + length (load head 0 (4 + o))) (header ++ load head 0 o)
        (load head (0 + o) 4) all in
    ap (load buffer 0)
      (omega (arith, four, length-append header (load head 0 o), length-load head 0 o))
    ∙ front

-- What is sent for a packet whose fields are in range and whose frame leaves four bytes of the array is
-- exactly its frame.
pub send_between-frame :
    (junk : Bytes) (p : Packet)
    → All IsField (fields p)
    → 16 + length (wire (fields p)) ≤ stream_size
    → send_between junk p ≡ some (frame p)
unfolding send_between
send_between-frame junk p h room =
    let size = encoded_size p h (omega (arith, room)) in
    let fits : leb (8 + (encode p initialize).offset) stream_size ≡ true =
      ground (arith, size, room) in
    rw (fits) (
      ap some (
        sent_buffer junk (encode p initialize).bytes (le_bytes 4 (4 + (encode p initialize).offset))
          (encode p initialize).offset (length-le_bytes 4 (4 + (encode p initialize).offset))
        ∙ ap₂ ◌++◌ (ap (le_bytes 4) (omega (arith, size)))
            (contents-encode p h (omega (arith, room)))))
