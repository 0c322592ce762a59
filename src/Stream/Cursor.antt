-- ===== src/Stream/Cursor.antt =====
-- The abstract view of StaticLib1/Stream.cpp: the bytes written so far, and those not yet read.
use graduation_server.Common.{
  ℕ, ◌+◌, ◌-◌, ◌^◌, ◌≤◌, ◌<◌, ◌≡◌, refl, sym, ap, ap₂, ◌∙◌, some, List, [], ◌++◌, append-nil,
  append_assoc, arith, length, length-append,
}
use graduation_server.Common.Words.{
  load, store, le_bytes, load-store_behind, length-le_bytes, load_split,
}
use graduation_server.Stream.{check_write_bound, Stream, stream_size, write_word, read}

-- The read position is behind the write position, and that is in the array.
pub record IsValid (s : Stream) : Type 0 where
  pub reads : s.read_pt ≤ s.offset
  pub writes : s.offset ≤ stream_size

abbrev pub contents : Stream → List ℕ
contents s = load s.bytes 0 s.offset

abbrev pub unread : Stream → List ℕ
unread s = load s.bytes s.read_pt (s.offset - s.read_pt)

-- What a sequence of writes has done when all of them fitted: the bytes stand behind the old ones.
pub record Appends (s t : Stream) (bs : List ℕ) : Type 0 where
  pub written : contents t ≡ contents s ++ bs
  pub end : t.offset ≡ s.offset + length bs
  pub still : t.read_pt ≡ s.read_pt

write_word_fits :
    (w v : ℕ) (s : Stream)
    → s.offset + w ≤ stream_size
    → write_word w v s
      ≡ record s { bytes = store s.bytes s.offset (le_bytes w v); offset = s.offset + w }
unfolding write_word check_write_bound
write_word_fits w v s h = ground arith

pub write_word_full :
    (w v : ℕ) (s : Stream)
    → stream_size < s.offset + w
    → s.offset + w < 2 ^ 64
    → write_word w v s ≡ s
unfolding write_word check_write_bound
write_word_full w v s h k = ground arith

pub write_word-Appends :
    (w v : ℕ) (s : Stream)
    → s.offset + w ≤ stream_size
    → Appends s (write_word w v s) (le_bytes w v)
write_word-Appends w v s h = rw (write_word_fits w v s h) record {
  written =
      ap (λ n. load (store s.bytes s.offset (le_bytes w v)) 0 (s.offset + n))
        (sym (length-le_bytes w v))
      ∙ load-store_behind s.bytes s.offset (le_bytes w v);
  end = omega (arith, length-le_bytes w v);
  still = refl;
}

pub Appends-trans :
    {s t u : Stream} (bs cs : List ℕ) → Appends s t bs → Appends t u cs → Appends s u (bs ++ cs)
Appends-trans {s} bs cs p q = record {
  written = q.written ∙ (ap (λ x. x ++ cs) p.written ∙ append_assoc (contents s) bs cs);
  end = omega (arith, length-append bs cs, p.end, q.end);
  still = q.still ∙ p.still;
}

pub Appends-refl : (s : Stream) → Appends s s []
Appends-refl s = record { written = sym (append-nil (contents s)); end = omega arith; still = refl }

-- A write never moves the read position, and stays in the array whatever it is given.
pub write_word-IsValid :
    (w v : ℕ) (s : Stream)
    → w < 2 ^ 32
    → IsValid s
    → IsValid (write_word w v s) × (s.offset ≤ (write_word w v s).offset)
unfolding write_word check_write_bound
write_word-IsValid w v s h i = ground arith

-- A read that finds its bytes returns them and goes on behind them.
pub read-unread :
    (n : ℕ) (s : Stream) (bs rest : List ℕ)
    → IsValid s
    → length bs ≡ n
    → unread s ≡ bs ++ rest
    → (read n s ≡ some (bs, record s { read_pt = s.read_pt + n }))
      × (unread (record s { read_pt = s.read_pt + n }) ≡ rest)
      × (s.read_pt + n ≤ s.offset)
unfolding read
read-unread n s bs rest i e u =
    ground (arith, parts, load_split s.bytes s.read_pt _ bs rest u, shorter)
  where
    parts : load s.bytes s.read_pt (length bs) ≡ load s.bytes s.read_pt n
    parts = ap (load s.bytes s.read_pt) e

    shorter :
        load s.bytes (s.read_pt + length bs) (s.offset - s.read_pt - length bs)
        ≡ load s.bytes (s.read_pt + n) (s.offset - (s.read_pt + n))
    shorter = ap₂ (load s.bytes) (omega arith) (omega arith)
