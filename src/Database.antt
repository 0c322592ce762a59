-- ===== src/Database.antt =====
-- StaticLib1/QueryStatement.cpp and QueryRecord.cpp: the text of a stored procedure's call, and the
-- cursor over the rows that it answers. The ADO library and its record sets are parameters (Record.antt).
pub mod Quoting
pub mod Numbers
pub mod Record
pub mod Values
use graduation_server.Common.{
  ℕ, zero, suc, ◌+◌, ◌/◌, ◌%◌, List, [], ◌∷◌, ◌++◌, take, ltb, ◌==◌, if◌then◌else◌,
}

pub data QueryType : Type 0 where
  query_not_return query_wait_return query_call_back : QueryType

-- `query_` as the list of its characters.
pub record QueryStatement : Type 0 where
  pub type : QueryType
  pub query : List ℕ
  pub param_count : ℕ

-- DB_PARAM_SIZE
abbrev pub db_param_size : ℕ
db_param_size = 8192

-- `setQuery` on a new statement.
abbrev pub set_query : List ℕ → QueryType → QueryStatement
set_query procedure type = record { type = type; query = procedure; param_count = 0 }

-- A space before the first parameter, a comma and a space before each other one.
abbrev pub separator : ℕ → List ℕ
separator count = if count == 0 then 32 ∷ [] else 44 ∷ (32 ∷ [])

-- The format puts quotes around the value; a text that is too long for the buffer is cut, with a place
-- left for the end of the text.
abbrev pub quoted : List ℕ → List ℕ
quoted value = take 8191 (39 ∷ (value ++ (39 ∷ [])))

-- `addArg`, on a value as the format prints it.
unfoldable pub add_arg : List ℕ → QueryStatement → QueryStatement
add_arg value s = record s {
  query = s.query ++ (separator s.param_count ++ quoted value);
  param_count = s.param_count + 1;
}

-- `%llu`, with at most `fuel` digits.
unfoldable pub decimal : ℕ → ℕ → List ℕ
decimal zero n = []
decimal (suc fuel) n =
    let rest = decimal fuel (n / 10) in
    if ltb n 10 then (48 + n) ∷ [] else rest ++ ((48 + n % 10) ∷ [])

-- `addParam` of a UINT64.
abbrev pub add_number : ℕ → QueryStatement → QueryStatement
add_number n = add_arg (decimal 20 n)

-- `addParam` of texts, one after the other.
unfoldable pub add_params : List (List ℕ) → QueryStatement → QueryStatement
add_params [] s = s
add_params (value ∷ more) s = add_params more (add_arg value s)
