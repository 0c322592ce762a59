-- ===== src/Stream.antt =====
-- StaticLib1/Stream.h and Stream.cpp: the buffer that packets are written to and read from.
pub mod Cursor
pub mod Reads
pub mod Writes
pub mod Hazards
use graduation_server.Common.{
  ℕ, zero, suc, ◌+◌, ◌-◌, ◌*◌, ◌%◌, ◌^◌, Bool, true, false, Option, none, some, List, [], ◌∷◌, ◌++◌,
  ltb, leb, ◌==◌, ◌&&◌, if◌then◌else◌, length, take,
}
use graduation_server.Common.Words.{Bytes, load, store, le_bytes, le_value}

-- SOCKET_BUF_SIZE, the length of `stream_`.
abbrev pub stream_size : ℕ
stream_size = 10240

pub record Stream : Type 0 where
  pub offset : ℕ
  pub read_pt : ℕ
  pub bytes : Bytes

unfoldable pub initialize : Stream
initialize = record { offset = 0; read_pt = 0; bytes = λ _. 0 }

-- `source` holds the bytes from the pointer `data` to the end of its buffer. `none` is undefined
-- behaviour: a copy that reads past the source, or that `memcpy_s` refuses as too large.
unfoldable pub set : List ℕ → ℕ → Stream → Option Stream
set source size s =
    if leb size stream_size && leb size (length source)
    then some (record s { offset = size; bytes = store s.bytes 0 (take size source) })
    else none

unfoldable pub check_write_bound : ℕ → Stream → Bool
check_write_bound len s = leb ((s.offset + len) % 2 ^ 64) stream_size

-- STREAM_WRITE for a value of `w` bytes with the bit pattern `v`.
unfoldable pub write_word : ℕ → ℕ → Stream → Stream
write_word w v s =
    if check_write_bound w s
    then record s { bytes = store s.bytes s.offset (le_bytes w v); offset = s.offset + w }
    else s

unfoldable pub write_chars : ℕ → List ℕ → Stream → Stream
write_chars w [] s = s
write_chars w (c ∷ cs) s = write_chars w cs (write_word w c s)

-- `operator << (const str_t)`: the length as an Int32, then each `char` by itself.
unfoldable pub write_str : List ℕ → Stream → Stream
write_str v s = write_chars 1 v (write_word 4 (length v % 2 ^ 32) s)

-- `operator << (const wstr_t)`: a `wchar_t` has two bytes.
unfoldable pub write_wstr : List ℕ → Stream → Stream
write_wstr v s = write_chars 2 v (write_word 4 (length v % 2 ^ 32) s)

write_wstr_all : List (List ℕ) → Stream → Stream
write_wstr_all [] s = s
write_wstr_all (v ∷ vs) s = write_wstr_all vs (write_wstr v s)

-- `operator << (const std::vector<wstr_t> &)`
unfoldable pub write_wstrs : List (List ℕ) → Stream → Stream
unfolding write_wstr_all
write_wstrs vs s = write_wstr_all vs (write_word 8 (length vs) s)

-- Reading: a value and the stream behind it. `none` is undefined behaviour of the program.
abbrev pub Reader : Type 0 → Type 0
Reader A = Stream → Option (A × Stream)

abbrev pub pure : {A : Type 0} → A → Reader A
pure a s = some (a, s)

infixl 5 ◌>>=◌
abbrev pub ◌>>=◌ : {A B : Type 0} → Reader A → (A → Reader B) → Reader B
◌>>=◌ m f s = elim (m s) [ none ↦ none | some (a, t) ↦ f a t ]

unfoldable pub check_read_bound : ℕ → Stream → Bool
check_read_bound len s = leb ((s.read_pt + len) % 2 ^ 64) s.offset

-- `Stream::read`: a copy that leaves the array is undefined.
unfoldable pub read : ℕ → Reader (List ℕ)
read len s =
    if leb (s.read_pt + len) stream_size
    then some (load s.bytes s.read_pt len, record s { read_pt = s.read_pt + len })
    else none

-- STREAM_READ for a type of `w` bytes: without enough bytes the variable keeps its value `old`.
unfoldable pub read_word : ℕ → ℕ → Reader ℕ
read_word w old s =
    let value = (read w >>= λ bs. pure (le_value bs)) s in
    if check_read_bound w s then value else some (old, s)

-- `T size; *this >> &size;`: without enough bytes `size` is read uninitialised.
unfoldable pub read_size : ℕ → Reader ℕ
read_size w s = let value = read_word w 0 s in if check_read_bound w s then value else none

-- The conversion of an INT32 to `size_t`.
unfoldable pub size_of_int32 : ℕ → ℕ
size_of_int32 n = if ltb n (2 ^ 31) then n else n + (2 ^ 64 - 2 ^ 32)

-- What the constructor of a string takes from a buffer that ends in a zero.
unfoldable pub c_string : List ℕ → List ℕ
c_string [] = []
c_string (c ∷ cs) = if c == 0 then [] else c ∷ c_string cs

-- Two bytes to a WCHAR.
pub wide_units : List ℕ → List ℕ
wide_units [] = []
wide_units (a ∷ []) = []
wide_units (a ∷ b ∷ bs) = (a + 256 * b) ∷ wide_units bs

-- `new T[size + 1]` for an INT32 `size`, as the number of elements; `none` is the exception that `new`
-- throws for a negative number, to which the greatest `size` comes round as well.
unfoldable pub new_buffer : ℕ → Option ℕ
new_buffer size =
    let elements = (size + 1) % 2 ^ 32 in if ltb elements (2 ^ 31) then some elements else none

-- The buffer is read into and given up. `none` stands for both that exception, which nothing catches, and,
-- where the buffer has no room for `size` elements and the end of the text, for undefined behaviour.
unfoldable pub read_buffer : ℕ → (List ℕ → List ℕ) → ℕ → Reader (List ℕ)
unfolding new_buffer
read_buffer w units size s =
    let value = (read (size * w) >>= λ bs. pure (c_string (units bs))) s in
    elim (new_buffer size) [ none ↦ none | some room ↦ if ltb size room then value else none ]

unfoldable pub read_text : ℕ → (List ℕ → List ℕ) → List ℕ → Reader (List ℕ)
read_text w units old = do
  size ← read_size 4
  λ s.
      let value = read_buffer w units size s in
      if check_read_bound (size_of_int32 size) s then value else some (old, s)

-- `operator >> (str_t *)`
unfoldable pub read_str : List ℕ → Reader (List ℕ)
read_str = read_text 1 (λ bs. bs)

-- `operator >> (wstr_t *)`: the bound is checked for `size` bytes, and 2 * `size` are read.
unfoldable pub read_wstr : List ℕ → Reader (List ℕ)
unfolding wide_units
read_wstr = read_text 2 wide_units

read_wstr_all : ℕ → List (List ℕ) → Reader (List (List ℕ))
read_wstr_all zero out = pure out
read_wstr_all (suc n) out = read_wstr [] >>= λ v. read_wstr_all n (out ++ (v ∷ []))

-- `operator >> (std::vector<wstr_t> *)` appends to the vector.
unfoldable pub read_wstrs : List (List ℕ) → Reader (List (List ℕ))
unfolding read_wstr_all
read_wstrs out = do n ← read_size 8; read_wstr_all n out
