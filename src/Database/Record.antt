-- ===== src/Database/Record.antt =====
-- StaticLib1/QueryRecord.cpp: the calls on an ADO record set, which may each raise a COM error. `none`
-- of a call is that error; `errorReport` only logs it.
use graduation_server.Common.{
  ℕ, Bool, true, false, Option, none, some, List, ltb, length, if◌then◌else◌,
}
use graduation_server.Database.{db_param_size, QueryType}

-- What the code uses of ADO and of the text conversions: `R` is a record set with its cursor, `C` a
-- connection. A call that moves the cursor leaves a record set also where it raises an error. `int_val`
-- and `text` are the two views of a field's value that the code takes, the bits of an `int` and a wide
-- text. A pointer to a record set may be null. `widen` is the conversion of `%S`, `narrow` that of
-- WideCharToMultiByte.
pub record Platform (R C : Type 0) : Type 0 where
  pub created : Option R
  pub end_of_file : R → Option Bool
  pub move_next : R → R
  pub move_first : R → R
  pub int_val : List ℕ → R → Option ℕ
  pub text : List ℕ → R → Option (List ℕ)
  pub execute_command : List ℕ → QueryType → C → C × Option (Option R)
  pub widen : List ℕ → List ℕ
  pub narrow : List ℕ → List ℕ

module _ {R C : Type 0} (ado : Platform R C) where
  -- `isEof`: a null pointer is at its end, an error is not.
  abbrev pub is_eof : Option R → Bool
  is_eof none = true
  is_eof (some r) = elim (ado.end_of_file r) [ none ↦ false | some b ↦ b ]

  -- The answers of the two are not used.
  abbrev pub move_next : Option R → Option R
  move_next none = none
  move_next (some r) = some (ado.move_next r)

  abbrev pub move_first : Option R → Option R
  move_first none = none
  move_first (some r) = some (ado.move_first r)

  -- `get` of an `int32_t`; the answer `none` is false.
  abbrev pub get_int : List ℕ → Option R → Option ℕ
  get_int field none = none
  get_int field (some r) = ado.int_val field r

  -- A text that the buffer has no room for ends the program, the outer `none`.
  abbrev pub fitting_text : Option (List ℕ) → Option (Option (List ℕ))
  fitting_text none = some none
  fitting_text (some value) = if ltb (length value) db_param_size then some (some value) else none

  -- `get` of a wide text.
  abbrev pub get_text : List ℕ → Option R → Option (Option (List ℕ))
  get_text field none = some none
  get_text field (some r) = fitting_text (ado.text field r)
