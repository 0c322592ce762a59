-- ===== src/DbAgent/Connect.antt =====
-- StaticLib1/ADODatabase.cpp:4-103 and DBManager.cpp:4-52 and 80-95: how the workers of the database agent
-- connect. Whether the database opens for a connection string is a parameter.
pub mod Providers
pub mod Cut
use graduation_server.Common.{
  ℕ, zero, suc, ◌+◌, ◌^◌, Bool, true, false, ◌&&◌, Option, none, some, List, [], ◌∷◌, ◌++◌, take,
  ltb, if◌then◌else◌,
}
use graduation_server.Common.Texts.{codes}
use graduation_server.Config.{
  Start, ok, exits, broken, ◌>>=◌, Xml, Tag, data_base, server_name, db, login, password, part,
  text_of, int_of,
}
use graduation_server.Database.{decimal}
use graduation_server.DbAgent.{DbState, db_stop, db_standby, db_running}

-- `dbConnection_`, whether there is one; `state_`, `connectionStr_` and `dbName_`.
pub record AdoDatabase : Type 0 where
  pub created : Bool
  pub state : DbState
  pub connection_str : List ℕ
  pub db_name : List ℕ

-- What a worker needs to connect.
pub record Account : Type 0 where
  pub server : List ℕ
  pub name : List ℕ
  pub id : List ℕ
  pub word : List ℕ

-- `snwprintf` of the connection string, to SIZE_128 characters with the end of the text.
unfoldable pub connection_text : List ℕ → Account → List ℕ
unfolding codes
connection_text provider a = take 127 (
    codes "Provider="
    ++ (provider
        ++ (codes ";Server="
            ++ (a.server
                ++ (codes ";Database="
                    ++ (a.name
                        ++ (codes ";Uid="
                            ++ (a.id ++ (codes ";Pwd=" ++ (a.word ++ codes ";"))))))))))

-- `L"SQLNCLI%d"`, to SIZE_64 characters.
unfoldable pub mssql_name : ℕ → List ℕ
unfolding codes decimal
mssql_name index = take 63 (codes "SQLNCLI" ++ decimal 10 index)

unfoldable pub sqlncli : List ℕ
unfolding codes
sqlncli = codes "SQLNCLI"

module _ (opens : List ℕ → Bool) where
  -- `connect()`; an error that Open raises only is logged.
  unfoldable pub connect_once : AdoDatabase → Bool × AdoDatabase
  connect_once d =
      if d.created && opens d.connection_str
      then (true, record d { state = db_standby })
      else (false, d)

  -- `connect(provider, serverName, dbName, id, password)`
  unfoldable pub connect_as : List ℕ → Account → AdoDatabase → Bool × AdoDatabase
  unfolding connect_once
  connect_as provider a d = connect_once (record d { connection_str = connection_text provider a })

  -- The loop over the versions of the provider, with so many of them left.
  unfoldable pub connect_from : ℕ → ℕ → Account → AdoDatabase → Bool × AdoDatabase
  unfolding connect_as
  connect_from zero index a d = (false, d)
  connect_from (suc left) index a d =
      let (came, tried) = connect_as (mssql_name index) a d in
      let rest = connect_from left (index + 1) a tried in if came then (true, tried) else rest

  -- `connect(serverName, dbName, id, password)`
  unfoldable pub connect : Account → AdoDatabase → Bool × AdoDatabase
  unfolding connect_from
  connect a d =
      let (came, tried) = connect_from 10 10 a (record d { db_name = a.name }) in
      if came then (true, tried) else connect_as sqlncli a tried

  -- The loop of `DBManager::run`, which ends the process where a worker cannot connect; `process` of the
  -- workers is in Worker.antt.
  unfoldable pub run_workers : Account → List AdoDatabase → Start (List AdoDatabase)
  unfolding connect
  run_workers a [] = ok []
  run_workers a (d ∷ more) = do
    now ← elim d.state [
      | db_stop ↦ let (came, after) = connect a d in if came then ok after else exits
      | db_standby ↦ ok d
      | db_running ↦ ok d
    ]
    rest ← run_workers a more
    ok (now ∷ rest)

-- `ADODatabase::ADODatabase`, which ends the process if there is no connection object.
unfoldable pub new_database : Bool → Start AdoDatabase
new_database created =
    if created
    then ok (record { created = true; state = db_stop; connection_str = []; db_name = [] })
    else exits

-- The loop of `DBManager::initialize`.
unfoldable pub make_databases : Bool → ℕ → Start (List AdoDatabase)
unfolding new_database
make_databases created zero = ok []
make_databases created (suc n) = do
  d ← new_database created
  more ← make_databases created n
  ok (d ∷ more)

module _ {N : Type 0} (xml : Xml N) (opens : List ℕ → Bool) (created : Bool) where
  -- The names, which go through one buffer of SIZE_256 characters.
  unfoldable pub read_account : List ℕ → N → Start Account
  read_account buffer root = do
    server_text ← text_of xml server_name root
    let one = xml.widen 256 buffer server_text
    name_text ← text_of xml db root
    let two = xml.widen 256 one name_text
    id_text ← text_of xml login root
    let three = xml.widen 256 two id_text
    word_text ← text_of xml password root
    ok (record { server = one; name = two; id = three; word = xml.widen 256 three word_text })

  -- `DBManager::initialize`; `leftover` and `buffer` are what was not initialised. A negative number of
  -- workers is none.
  unfoldable pub initialize : ℕ → List ℕ → N → Start (List AdoDatabase)
  unfolding read_account make_databases run_workers
  initialize leftover buffer config = do
    root ← part xml data_base config
    elim root [
      | none ↦ ok []
      | some node ↦ do
        count ← int_of xml Tag.thread_count leftover node
        a ← read_account buffer node
        databases ← make_databases created (if ltb count (2 ^ 31) then count else 0)
        run_workers opens a databases
    ]
