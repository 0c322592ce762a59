-- ===== src/Stream/Reads.antt =====
-- What a reader of StaticLib1/Stream.cpp takes from the stream, and the rules to put readers together.
use graduation_server.Common.{
  ℕ, ◌+◌, ◌*◌, ◌^◌, ◌≤◌, ◌<◌, ◌≡◌, ◌≢◌, refl, ◌∙◌, some, true, List, [], ◌∷◌, ◌++◌, append_assoc,
  arith, length, All, if◌then◌else◌, lt→ltb,
}
use graduation_server.Common.Words.{le_bytes, le_value, length-le_bytes, le_value-le_bytes}
use graduation_server.Stream.{
  Stream, Reader, pure, ◌>>=◌, read, read_word, read_size, new_buffer, read_buffer, read_text,
  read_str, c_string, check_read_bound, size_of_int32,
}
use graduation_server.Stream.Cursor.{IsValid, unread, read-unread}

-- On a stream whose unread bytes begin with `bs`, the reader ends, answers `a` and takes exactly `bs`.
pub record Reads {A : Type 0} (m : Reader A) (bs : List ℕ) (a : A) : Type 0 where
  pub run :
      (s : Stream) (rest : List ℕ)
      → IsValid s
      → unread s ≡ bs ++ rest
      → (t : Stream) × (m s ≡ some (a, t)) × IsValid t × (unread t ≡ rest)

pub Reads-pure : {A : Type 0} (a : A) → Reads (pure a) [] a
Reads-pure a = record { run = λ s rest v e. (s, refl, v, e) }

pub Reads-bind :
    {A B : Type 0} {m : Reader A} {bs cs : List ℕ} {a : A} {b : B} (f : A → Reader B)
    → Reads m bs a
    → Reads (f a) cs b
    → Reads (m >>= f) (bs ++ cs) b
Reads-bind {bs = bs} {cs = cs} f p q = record {
  run = λ s rest v e.
      let (t, step, w, u) = p.run s (cs ++ rest) v (e ∙ append_assoc bs cs rest) in
      let (t', step', w', u') = q.run t rest w u in (t', rw (step, ◌>>=◌) step', w', u');
}

pub Reads-map :
    {A B : Type 0} {m : Reader A} {bs : List ℕ} {a : A} (g : A → B)
    → Reads m bs a
    → Reads (m >>= λ x. pure (g x)) bs (g a)
Reads-map g p = record {
  run = λ s rest v e. let (t, step, w, u) = p.run s rest v e in (t, rw (step, ◌>>=◌), w, u);
}

-- A check for no more than what is unread passes.
pub check_read_bound-true :
    (n : ℕ) (s : Stream) → IsValid s → s.read_pt + n ≤ s.offset → check_read_bound n s ≡ true
unfolding check_read_bound
check_read_bound-true n s i h = ground arith

pub read-Reads : (n : ℕ) (bs : List ℕ) → length bs ≡ n → Reads (read n) bs bs
read-Reads n bs e = record {
  run = λ s rest i u.
      let (found, left, fits) = read-unread n s bs rest i e u in
      (record s { read_pt = s.read_pt + n }, found, ground arith, left);
}

-- A read behind a check for no more bytes than it takes.
checked_Reads :
    {A : Type 0} (n : ℕ) {m : Reader A} (k : Reader A) {bs : List ℕ} {a : A}
    → n ≤ length bs
    → Reads m bs a
    → Reads (λ s. if check_read_bound n s then m s else k s) bs a
checked_Reads n {m} k {bs} h p = record {
  run = λ s rest i u.
      let (_, _, fits) = read-unread (length bs) s bs rest i refl u in
      rw (check_read_bound-true n s i (omega (arith, fits, h))) (p.run s rest i u);
}

pub read_word-Reads : (w old v : ℕ) → v < 256 ^ w → Reads (read_word w old) (le_bytes w v) v
unfolding read_word
read_word-Reads w old v k = checked_Reads w _ (omega (arith, length-le_bytes w v)) (
    rw (le_value-le_bytes w v k) at
      (Reads-map le_value (read-Reads w (le_bytes w v) (length-le_bytes w v))))

pub read_size-Reads : (w v : ℕ) → v < 256 ^ w → Reads (read_size w) (le_bytes w v) v
unfolding read_size
read_size-Reads w v k =
    checked_Reads w _ (omega (arith, length-le_bytes w v)) (read_word-Reads w 0 v k)

-- The characters that survive a `char` string: bytes other than the terminator.
abbrev pub IsChar : ℕ → Type 0
IsChar c = (c ≢ 0) × (c < 256)

-- A text that an INT32 length and a terminated buffer can carry.
pub record IsText (v : List ℕ) : Type 0 where
  pub short : length v + 1 < 2 ^ 31
  pub chars : All IsChar v

pub c_string_self : (v : List ℕ) → All IsChar v → c_string v ≡ v
unfolding c_string
c_string_self [] h = refl
c_string_self (c ∷ cs) h = ground (arith, c_string_self cs)

abbrev pub text_bytes : List ℕ → List ℕ
text_bytes v = le_bytes 4 (length v) ++ v

size_of_length : (v : List ℕ) → IsText v → size_of_int32 (length v) ≡ length v
unfolding size_of_int32
size_of_length v t = ground (arith, t.short)

-- A length that an INT32 holds with one more gives a buffer for the text and its end.
pub new_small : (n : ℕ) → n + 1 < 2 ^ 31 → new_buffer n ≡ some (n + 1)
unfolding new_buffer
new_small n h = ground arith

buffer_Reads : (v : List ℕ) → IsText v → Reads (read_buffer 1 (λ bs. bs) (length v)) v v
unfolding read_buffer
buffer_Reads v t = record {
  run = λ s rest i u.
      rw (read_buffer, new_small (length v) t.short, lt→ltb (length v) (length v + 1) (omega arith))
        (copied.run s rest i u);
}
  where
    copied : Reads (λ s. (read (length v * 1) >>= λ bs. pure (c_string bs)) s) v v
    copied =
        rw (c_string_self v t.chars) at
          (Reads-map c_string (read-Reads (length v * 1) v (omega arith)))

-- Reading a text that an INT32 length can carry, from the bytes of its length and its characters,
-- takes exactly these bytes and gives the text, whatever the variable held.
pub read_str-Reads : (old v : List ℕ) → IsText v → Reads (read_str old) (text_bytes v) v
unfolding read_str read_text
read_str-Reads old v t =
    Reads-bind _ (read_size-Reads 4 (length v) (omega (arith, t.short)))
      (rw (size_of_length v t) (checked_Reads (length v) _ (omega arith) (buffer_Reads v t)))
