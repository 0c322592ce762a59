-- ===== src/Stream/Writes.antt =====
-- What the writers of StaticLib1/Stream.cpp leave in the stream, with room and without.
use graduation_server.Common.{
  ℕ, ◌+◌, ◌%◌, ◌^◌, ◌≤◌, ◌<◌, ◌≡◌, ap, List, [], ◌∷◌, arith, length, length-append, All,
}
use graduation_server.Common.Words.{le_bytes, length-le_bytes}
use graduation_server.Stream.{Stream, stream_size, write_word, write_chars, write_str}
use graduation_server.Stream.Cursor.{
  IsValid, Appends, Appends-refl, Appends-trans, write_word-Appends, write_word-IsValid,
}
use graduation_server.Stream.Reads.{IsText, IsChar, text_bytes}

char_bytes : (c : ℕ) → c < 256 → le_bytes 1 c ≡ c ∷ []
unfolding le_bytes
char_bytes c h = ap (λ x. x ∷ []) (omega arith)

write_chars-Appends :
    (v : List ℕ) (s : Stream)
    → All IsChar v
    → s.offset + length v ≤ stream_size
    → Appends s (write_chars 1 v s) v
unfolding write_chars
write_chars-Appends [] s h k = Appends-refl s
write_chars-Appends (c ∷ cs) s h k =
    let first = rw (char_bytes c h.0.1) at (write_word-Appends 1 c s (omega arith)) in
    Appends-trans (c ∷ []) cs first
      (write_chars-Appends cs (write_word 1 c s) h.1 (omega (arith, first.end)))

-- A text with room for it stands in the stream behind its length.
pub write_str-Appends :
    (v : List ℕ) (s : Stream)
    → IsText v
    → s.offset + length (text_bytes v) ≤ stream_size
    → Appends s (write_str v s) (text_bytes v)
unfolding write_str
write_str-Appends v s t k =
    let total = length-append (le_bytes 4 (length v)) v in
    let len = length-le_bytes 4 (length v) in
    let exact : length v % 2 ^ 32 ≡ length v = omega (arith, t.short) in
    let first = write_word-Appends 4 (length v) s (omega (arith, total, len)) in
    rw exact (
      Appends-trans (le_bytes 4 (length v)) v first
        (write_chars-Appends v _ t.chars (omega (arith, total, len, first.end))))

write_chars-IsValid :
    (w : ℕ) (v : List ℕ) (s : Stream) → w < 2 ^ 32 → IsValid s → IsValid (write_chars w v s)
unfolding write_chars
write_chars-IsValid w [] s h i = i
write_chars-IsValid w (c ∷ cs) s h i =
    write_chars-IsValid w cs (write_word w c s) h (write_word-IsValid w c s h i).0

-- Whatever the text, writing it to a valid stream leaves the stream valid, its write position in
-- the array.
pub write_str-IsValid : (v : List ℕ) (s : Stream) → IsValid s → IsValid (write_str v s)
unfolding write_str
write_str-IsValid v s i =
    write_chars-IsValid 1 v _ (omega arith)
      (write_word-IsValid 4 (length v % 2 ^ 32) s (omega arith) i).0
