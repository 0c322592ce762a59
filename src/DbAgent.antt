-- ===== src/DbAgent.antt =====
-- DBAgent/DBAgentProcess.cpp, QI_DB_REQ_ID_PW.h and QI_DB_REQ_LOAD_DATA.h: the requests that become
-- queries. A query's destructor makes the answer from what the database gave, in Worker.antt.
pub mod Worker
pub mod Requests
pub mod Connect
pub mod Keeping
use graduation_server.Common.{ℕ, Option, none, some, List, [], ◌∷◌}
use graduation_server.Stream.{c_string}
use graduation_server.World.{World, Action, done, fault, ◌>>=◌, ◌>>◌, get_own, set_own}
use graduation_server.Packet.{Packet, account, notice}
use graduation_server.Packet.Account.{i_db_req_id_pw}
use graduation_server.Packet.Notice.{i_db_req_load_data}
use graduation_server.Packet.Codes.{e_i_db_req_id_pw, e_i_db_req_load_data}
use graduation_server.Contents.{RunFunc, initialize}
use graduation_server.JobQueue.{JobQueue, push}
use graduation_server.Database.{QueryStatement, query_call_back, set_query, add_arg, add_number}
use graduation_server.Database.Record.{Platform}

-- The two classes of queries.
pub data QueryKind : Type 0 where
  qi_db_req_id_pw qi_db_req_load_data : QueryKind

-- `record_` is a pointer that may be null.
pub record Query (R : Type 0) : Type 0 where
  pub kind : QueryKind
  pub client_id : ℕ
  pub statement : QueryStatement
  pub record_set : Option R

pub data DbState : Type 0 where
  db_stop db_standby db_running : DbState

-- DBMANAGER's `queryPool_`, and one worker's `dbConnection_` and `state_`.
pub record DbAgent (R C : Type 0) : Type 0 where
  pub query_pool : JobQueue (Query R)
  pub connection : C
  pub state : DbState

-- "p_AccountData_Select"
abbrev pub account_procedure : List ℕ
account_procedure =
    112
    ∷ (95
        ∷ (65
            ∷ (99
                ∷ (99
                    ∷ (111
                        ∷ (117
                            ∷ (110
                                ∷ (116
                                    ∷ (68
                                        ∷ (97
                                            ∷ (116
                                                ∷ (97
                                                    ∷ (95
                                                        ∷ (83
                                                            ∷ (101
                                                            ∷ (108
                                                            ∷ (101
                                                            ∷ (99 ∷ (116 ∷ [])))))))))))))))))))

-- "p_Character_Select"
abbrev pub character_procedure : List ℕ
character_procedure =
    112
    ∷ (95
        ∷ (67
            ∷ (104
                ∷ (97
                    ∷ (114
                        ∷ (97
                            ∷ (99
                                ∷ (116
                                    ∷ (101
                                        ∷ (114
                                            ∷ (95
                                                ∷ (83
                                                    ∷ (101
                                                        ∷ (108
                                                            ∷ (101
                                                            ∷ (99 ∷ (116 ∷ [])))))))))))))))))

module _ {R C : Type 0} (ado : Platform R C) where
  -- `new QI_DB_REQ_ID_PW()` and `new QI_DB_REQ_LOAD_DATA()`.
  abbrev pub new_query : QueryKind → List ℕ → ℕ → Query R
  new_query kind procedure client_id = record {
    kind = kind;
    client_id = client_id;
    statement = set_query procedure query_call_back;
    record_set = ado.created;
  }

  -- `DBMANAGER.pushQuery(query)`
  unfoldable pub push_query : Query R → Action (DbAgent R C) (Unit {0})
  push_query query w =
      some (tt, record w { own = record w.own { query_pool = push query w.own.query_pool } })

  -- `addParam` of a narrow text.
  abbrev pub add_text : List ℕ → QueryStatement → QueryStatement
  add_text value = add_arg (ado.widen (c_string value))

  abbrev pub id_pw_query : ℕ → List ℕ → List ℕ → Query R
  id_pw_query client_id id password =
      let query = new_query qi_db_req_id_pw account_procedure client_id in
      record query { statement = add_text password (add_text id query.statement) }

  abbrev pub load_data_query : ℕ → ℕ → Query R
  load_data_query client_id oid_account_id =
      let query = new_query qi_db_req_load_data character_procedure client_id in
      record query { statement = add_number oid_account_id query.statement }

  unfoldable pub i_db_req_id_pw_func : RunFunc (DbAgent R C)
  unfolding push_query
  i_db_req_id_pw_func p (account (i_db_req_id_pw client_id id password)) =
      push_query (id_pw_query client_id id password)
  i_db_req_id_pw_func p _ = fault

  unfoldable pub i_db_req_load_data_func : RunFunc (DbAgent R C)
  unfolding push_query
  i_db_req_load_data_func p (notice (i_db_req_load_data client_id oid_account_id)) =
      push_query (load_data_query client_id oid_account_id)
  i_db_req_load_data_func p _ = fault

  -- `registSubPacketFunc` and `initialize`.
  unfoldable pub db_agent_table : List (ℕ × RunFunc (DbAgent R C))
  db_agent_table = initialize (
      (e_i_db_req_id_pw, i_db_req_id_pw_func)
      ∷ ((e_i_db_req_load_data, i_db_req_load_data_func) ∷ []))
