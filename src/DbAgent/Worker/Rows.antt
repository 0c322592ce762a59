-- ===== src/DbAgent/Worker/Rows.antt =====
-- What the loops of both destructors find in the rows of a record set: DBAgent/QI_DB_REQ_ID_PW.h:28-43
-- and QI_DB_REQ_LOAD_DATA.h:28-41.
use graduation_server.Common.{
  ℕ, zero, suc, ◌<◌, ◌≡◌, refl, ap, ◌∙◌, true, false, Option, none, some, List, [], ◌∷◌, arith,
  length, All, lt→ltb, or_else, ended,
}
use graduation_server.Database.{db_param_size}
use graduation_server.Database.Record.{Platform, is_eof, get_int, get_text, fitting_text}
use graduation_server.DbAgent.Worker.{
  oid_account_field, name_field, rewound, found_account, take_name, loaded,
}

-- What a row of a record set has under the two names that the queries ask for.
pub record Row : Type 0 where
  pub account_id : Option ℕ
  pub name : Option (List ℕ)

-- The buffer has room for the name.
abbrev pub Fits : Row → Type 0
Fits row = (value : List ℕ) → row.name ≡ some value → length value < db_param_size

-- `rows r` are the rows from the cursor on, and the calls go through them.
pub record IsCursor {R C : Type 0} (ado : Platform R C) (rows : R → List Row) : Type 0 where
  pub at_end : (r : R) → rows r ≡ [] → ado.end_of_file r ≡ some true
  pub at_row :
      (r : R) (row : Row) (rest : List Row)
      → rows r ≡ row ∷ rest
      → (ado.end_of_file r ≡ some false)
        × (ado.int_val oid_account_field r ≡ row.account_id)
        × (ado.text name_field r ≡ row.name)
        × (rows (ado.move_next r) ≡ rest)

-- The last name that a row has.
abbrev pub last_name : List Row → Option (List ℕ)
last_name [] = none
last_name (row ∷ rest) = or_else (last_name rest) row.name

-- The account id in the first row.
abbrev pub first_account : List Row → Option ℕ
first_account [] = none
first_account (row ∷ rest) = row.account_id

module _ {R C : Type 0} (ado : Platform R C) (rows : R → List Row)
    (cursor : IsCursor ado rows) where
  fitting_text_lem :
      (name : Option (List ℕ))
      → ((value : List ℕ) → name ≡ some value → length value < db_param_size)
      → fitting_text ado name ≡ some name
  fitting_text_lem none h = refl
  fitting_text_lem (some value) h = rw (lt→ltb (length value) db_param_size (h value refl)) refl

  take_name_last :
      (name later : Option (List ℕ)) (answer : List ℕ × ℕ)
      → take_name ado later (take_name ado name answer) ≡ take_name ado (or_else later name) answer
  take_name_last name none answer = refl
  take_name_last name (some value) answer = refl

  pub loaded_by :
      (xs : List Row) (fuel : ℕ) (r : R) (answer : List ℕ × ℕ)
      → rows r ≡ xs
      → length xs < fuel
      → All Fits xs
      → loaded ado fuel (some r) answer ≡ ended (take_name ado (last_name xs) answer)
  unfolding loaded
  loaded_by xs zero r answer e l h = absurd (omega arith)
  loaded_by [] (suc fuel) r answer e l h = rw (is_eof, cursor.at_end r e) refl
  loaded_by (row ∷ rest) (suc fuel) r answer e l h =
      let (more, _, text, moved) = cursor.at_row r row rest e in
      rw (is_eof, more, get_text, text, fitting_text_lem row.name (h.0))
        (loaded_by rest fuel (ado.move_next r) (take_name ado row.name answer) moved (omega arith)
            (h.1)
          ∙ ap ended (take_name_last row.name (last_name rest) answer))

  pub found_account_by :
      (xs : List Row) (r : R) → rows r ≡ xs → found_account ado (some r) ≡ first_account xs
  found_account_by [] r e = rw (is_eof, cursor.at_end r e) refl
  found_account_by (row ∷ rest) r e =
      let (more, number, _, _) = cursor.at_row r row rest e in
      rw (is_eof, more, get_int, number) refl

  pub rewound_by :
      (xs : List Row) (r : R)
      → rows r ≡ xs
      → rows (ado.move_first r) ≡ rows r
      → (q : R) × (rewound ado (some r) ≡ some q) × (rows q ≡ rows r)
  rewound_by [] r e again = (r, rw (is_eof, cursor.at_end r e) refl, refl)
  rewound_by (row ∷ rest) r e again =
      let (more, _, _, _) = cursor.at_row r row rest e in
      (ado.move_first r, rw (is_eof, more) refl, again)
