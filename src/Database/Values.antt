-- ===== src/Database/Values.antt =====
-- StaticLib1/QueryRecord.cpp:50-66, 108-145 and 198-264: the calls on a record set that the queries at hand
-- do not make. A value in a field is a VARIANT, whose members intVal, lVal, fltVal and dblVal share their
-- bytes.
use graduation_server.Common.{
  ℕ, ◌+◌, ◌%◌, ◌^◌, ◌<◌, ◌≤◌, ◌≡◌, ◌↔◌, ◌⊎◌, inl, inr, ap, Bool, Bool-cases, true, false, Option,
  none, some, List, arith, ltb, if◌then◌else◌,
}
use graduation_server.Common.Words.{sign_extend}

-- What ADO answers; `payload` is the eight bytes of the value in a field as one number. `none` is an error.
pub record RecordSet (R : Type 0) : Type 0 where
  pub is_open : R → Bool
  pub close : R → Option R
  pub move_previous : R → Option R
  pub move_last : R → Option R
  pub payload : List ℕ → R → Option ℕ

-- `opened`
unfoldable pub opened : {R : Type 0} → RecordSet R → R → Bool
opened ado r = ado.is_open r

same_bits :
    (v : ℕ) → v < 2 ^ 64 → sign_extend (v % 2 ^ 32) ≡ v → (v < 2 ^ 31) ⊎ (2 ^ 64 ≤ v + 2 ^ 31)
same_bits v small e = elim (Bool-cases (ltb (v % 2 ^ 32) (2 ^ 31))) [
  | inl low ↦ inl (ground arith)
  | inr high ↦ inr (ground arith)
]

kept_bits :
    (v : ℕ) → v < 2 ^ 64 → (v < 2 ^ 31) ⊎ (2 ^ 64 ≤ v + 2 ^ 31) → sign_extend (v % 2 ^ 32) ≡ v
kept_bits v small (inl low) = ground arith
kept_bits v small (inr high) = ground arith

inner : {a b : ℕ} → some a ≡ some b → a ≡ b
inner e = cc

module _ {R : Type 0} (ado : RecordSet R) where
  abbrev pub or_same : R → Option R → R
  or_same r none = r
  or_same r (some after) = after

  -- `close`: an error is only logged, and a null pointer stays as it is.
  unfoldable pub close : Option R → Option R
  unfolding opened
  close none = none
  close (some r) = some (if opened ado r then or_same r (ado.close r) else r)

  -- `movePrevious` and `moveLast`, which answer S_FALSE after an error; their answers are Booleans here.
  unfoldable pub move_previous : R → R × Bool
  move_previous r = elim (ado.move_previous r) [ none ↦ (r, false) | some after ↦ (after, true) ]

  unfoldable pub move_last : R → R × Bool
  move_last r = elim (ado.move_last r) [ none ↦ (r, false) | some after ↦ (after, true) ]

  -- `get` of an `int64_t`, a `float`, a `double` and a `long`: the bits of the value, by the member that the
  -- code reads.
  unfoldable pub get_int64 : List ℕ → R → Option ℕ
  get_int64 field r = elim (ado.payload field r) [
    | none ↦ none
    | some v ↦ some (sign_extend (v % 2 ^ 32))
  ]

  unfoldable pub get_float : List ℕ → R → Option ℕ
  get_float field r = elim (ado.payload field r) [ none ↦ none | some v ↦ some (v % 2 ^ 32) ]

  unfoldable pub get_double : List ℕ → R → Option ℕ
  get_double field r = elim (ado.payload field r) [ none ↦ none | some v ↦ some (v % 2 ^ 64) ]

  unfoldable pub get_long : List ℕ → R → Option ℕ
  get_long field r = elim (ado.payload field r) [ none ↦ none | some v ↦ some (v % 2 ^ 32) ]

  -- An `int64_t` is read back exactly if its value is one of an `int`: the upper half of the value is not
  -- looked at, and the sign of the lower half takes its place. The field is there.
  pub get_int64_iff :
      (field : List ℕ) (r : R) (v : ℕ)
      → ado.payload field r ≡ some v
      → v < 2 ^ 64
      → (get_int64 field r ≡ some v) ↔ ((v < 2 ^ 31) ⊎ (2 ^ 64 ≤ v + 2 ^ 31))
  unfolding get_int64
  get_int64_iff field r v there small =
      rw (get_int64, there)
        (λ e. same_bits v small (inner e), λ which. ap some (kept_bits v small which))
