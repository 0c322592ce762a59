-- ===== src/Stream/Hazards.antt =====
-- What the readers of texts in StaticLib1/Stream.cpp:228-264 do with a length that does not fit.
use graduation_server.Common.{
  ℕ, ◌+◌, ◌-◌, ◌*◌, ◌%◌, ◌^◌, ◌≤◌, ◌<◌, ◌≡◌, refl, inl, inr, Bool-cases, none, some, List, arith,
  leb, lt→ltb, ltb, false, true, ◌==◌, if◌then◌else◌,
}
use graduation_server.Stream.{
  Stream, stream_size, ◌>>=◌, check_read_bound, read, read_size, size_of_int32, new_buffer,
  read_buffer, read_text, read_str, read_wstr, c_string, wide_units,
}
use graduation_server.Common.Words.{load}
use graduation_server.Stream.Cursor.{IsValid}
use graduation_server.Stream.Reads.{new_small}

size_negative : (k : ℕ) → 1 ≤ k → k ≤ 2 ^ 31 → size_of_int32 (2 ^ 32 - k) ≡ 2 ^ 64 - k
unfolding size_of_int32
size_negative k l h = ground arith

wrapped : (k r : ℕ) → 1 ≤ k → k ≤ r → r < 2 ^ 64 → (r + (2 ^ 64 - k)) % 2 ^ 64 ≡ r - k
wrapped k r l h b = ground arith

new_negative :
    (k : ℕ) → 1 ≤ k → k ≤ 2 ^ 31 → new_buffer (2 ^ 32 - k) ≡ (if k == 1 then some 0 else none)
unfolding new_buffer
new_negative k l h = ground arith

buffer_negative :
    (w : ℕ) (units : List ℕ → List ℕ) (k : ℕ) (t : Stream)
    → 1 ≤ k
    → k ≤ 2 ^ 31
    → read_buffer w units (2 ^ 32 - k) t ≡ none
unfolding read_buffer
buffer_negative w units k t l h = elim (Bool-cases (k == 1)) [
  | inl e ↦
      let no_room : ltb (2 ^ 32 - k) 0 ≡ false = ground arith in
      rw (read_buffer, new_negative k l h, e, no_room) refl
  | inr e ↦ rw (read_buffer, new_negative k l h, e) refl
]

-- A text whose length field holds a negative number `-k`, no further below zero than the stream has been
-- read, passes the bound check and is not read: for -1 the buffer has no elements and is written behind
-- its end, and for any other number `new` throws.
pub read_str_negative :
    (old : List ℕ) (s t : Stream) (k : ℕ)
    → IsValid t
    → read_size 4 s ≡ some (2 ^ 32 - k, t)
    → 1 ≤ k
    → k ≤ t.read_pt
    → (check_read_bound (size_of_int32 (2 ^ 32 - k)) t ≡ true)
      × (read_str old s ≡ none)
      × (new_buffer (2 ^ 32 - k) ≡ (if k == 1 then some 0 else none))
unfolding read_str read_text check_read_bound
read_str_negative old s t k i e l h =
    let bounded : k ≤ 2 ^ 31 = omega (arith, i.reads, i.writes) in
    let passed : check_read_bound (size_of_int32 (2 ^ 32 - k)) t ≡ true = ground (
      arith,
      size_negative k l bounded,
      wrapped k t.read_pt l h (omega (arith, i.reads, i.writes)),
      i.reads,
      i.writes,
    ) in
    (
      passed,
      rw (e, ◌>>=◌, passed, buffer_negative 1 (λ bs. bs) k t l bounded) refl,
      new_negative k l bounded,
    )

read_fits :
    (len : ℕ) (t : Stream)
    → leb (t.read_pt + len) stream_size ≡ true
    → read len t ≡ some (load t.bytes t.read_pt len, record t { read_pt = t.read_pt + len })
unfolding read
read_fits len t e = rw e refl

wide_read :
    (n : ℕ) (t : Stream)
    → n + 1 < 2 ^ 31
    → t.read_pt + n * 2 ≤ stream_size
    → read_buffer 2 wide_units n t
      ≡ some (
        c_string (wide_units (load t.bytes t.read_pt (n * 2))),
        record t { read_pt = t.read_pt + n * 2 },
      )
unfolding read_buffer
wide_read n t h b =
    rw (read_buffer, new_small n h, lt→ltb n (n + 1) (omega arith))
      (rw (read_fits (n * 2) t (ground (arith, b)), ◌>>=◌) refl)

-- A wide text whose length in characters is at most the number of bytes left, but more than half of
-- it, passes the bound check, and the read goes past the end of what was received, if it stays in
-- the array.
pub read_wstr_over :
    (old : List ℕ) (s t : Stream) (n : ℕ)
    → IsValid t
    → read_size 4 s ≡ some (n, t)
    → t.read_pt + n ≤ t.offset
    → t.offset < t.read_pt + n * 2
    → t.read_pt + n * 2 ≤ stream_size
    → (v : List ℕ) × (u : Stream) × (read_wstr old s ≡ some (v, u)) × (u.offset < u.read_pt)
unfolding read_wstr read_text check_read_bound size_of_int32
read_wstr_over old s t n i e l h b = (
  c_string (wide_units (load t.bytes t.read_pt (n * 2))),
  record t { read_pt = t.read_pt + n * 2 },
  rw (e, ◌>>=◌) (ground (arith, i.writes, i.reads, wide_read n t (omega (arith, i.writes)) b)),
  h,
)
