-- ===== src/Packet/Wire.antt =====
-- The values that StaticLib1/PacketClass.h puts on the wire, and the chain of `<<`.
use graduation_server.Common.{
  ℕ, ◌+◌, ◌^◌, ◌≤◌, ◌<◌, List, [], ◌∷◌, ◌++◌, arith, length, length-append, All,
}
use graduation_server.Common.Words.{le_bytes, length-le_bytes}
use graduation_server.Stream.{Stream, stream_size, write_word, write_str}
use graduation_server.Stream.Cursor.{Appends, Appends-refl, Appends-trans, write_word-Appends}
use graduation_server.Stream.Reads.{IsText, text_bytes}
use graduation_server.Stream.Writes.{write_str-Appends}

-- `stream << a << b`, one statement after the other.
infixl 5 ◌<<◌
abbrev pub ◌<<◌ : Stream → (Stream → Stream) → Stream
s << f = f s

-- A number of so many bytes, or a text behind its length.
pub data Field : Type 0 where
  word : ℕ → ℕ → Field
  str : List ℕ → Field

abbrev pub field_bytes : Field → List ℕ
field_bytes (word w v) = le_bytes w v
field_bytes (str v) = text_bytes v

abbrev pub IsField : Field → Type 0
IsField (word w v) = v < 256 ^ w
IsField (str v) = IsText v

unfoldable pub wire : List Field → List ℕ
wire [] = []
wire (f ∷ fs) = field_bytes f ++ wire fs

write_field : Field → Stream → Stream
write_field (word w v) = write_word w v
write_field (str v) = write_str v

unfoldable pub write_fields : List Field → Stream → Stream
unfolding write_field
write_fields [] s = s
write_fields (f ∷ fs) s = write_fields fs (write_field f s)

write_field-Appends :
    (f : Field) (s : Stream)
    → IsField f
    → s.offset + length (field_bytes f) ≤ stream_size
    → Appends s (write_field f s) (field_bytes f)
unfolding write_field
write_field-Appends (word w v) s h k = write_word-Appends w v s (omega (arith, length-le_bytes w v))
write_field-Appends (str v) s h k = write_str-Appends v s h k

-- Fields that fit are written one behind the other.
pub write_fields-Appends :
    (fs : List Field) (s : Stream)
    → All IsField fs
    → s.offset + length (wire fs) ≤ stream_size
    → Appends s (write_fields fs s) (wire fs)
unfolding write_fields wire
write_fields-Appends [] s h k = Appends-refl s
write_fields-Appends (f ∷ fs) s h k =
    let total = length-append (field_bytes f) (wire fs) in
    let first = write_field-Appends f s h.0 (omega (arith, total)) in
    Appends-trans (field_bytes f) (wire fs) first
      (write_fields-Appends fs (write_field f s) h.1 (omega (arith, total, first.end)))
