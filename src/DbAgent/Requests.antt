-- ===== src/DbAgent/Requests.antt =====
-- What the handlers of DBAgent/DBAgentProcess.cpp put into the pool of queries.
use graduation_server.Common.{
  ℕ, ◌<◌, ◌^◌, ◌≡◌, refl, some, List, [], ◌∷◌, ◌++◌, arith, find, insert, length,
}
use graduation_server.Stream.{c_string}
use graduation_server.World.{World}
use graduation_server.Packet.{Packet, account, notice, packet_type}
use graduation_server.Packet.Account.{i_db_req_id_pw}
use graduation_server.Packet.Notice.{i_db_req_load_data}
use graduation_server.Packet.Codes.{e_i_db_req_id_pw, e_i_db_req_load_data}
use graduation_server.Contents.{
  RunFunc, run, initialize, regist_default_packet_func, regist_sub_packet_func,
}
use graduation_server.JobQueue.{push, jobs, jobs-push}
use graduation_server.Database.{query_call_back, add_params, decimal}
use graduation_server.Database.Quoting.{IsPlain, read_statement, read_statement-add_params}
use graduation_server.Database.Numbers.{number_of, number_of-decimal, decimal-IsPlain}
use graduation_server.Database.Record.{Platform}
use graduation_server.DbAgent.{
  Query, QueryKind, qi_db_req_id_pw, qi_db_req_load_data, DbAgent, account_procedure,
  character_procedure, push_query, id_pw_query, load_data_query, i_db_req_id_pw_func,
  i_db_req_load_data_func, db_agent_table,
}

module _ {R C : Type 0} (ado : Platform R C) where
  -- The two handlers are found under their types.
  handlers :
      (find e_i_db_req_id_pw (db_agent_table ado) ≡ some (i_db_req_id_pw_func ado))
      × (find e_i_db_req_load_data (db_agent_table ado) ≡ some (i_db_req_load_data_func ado))
  unfolding db_agent_table initialize regist_sub_packet_func regist_default_packet_func find insert
  handlers = (refl, refl)

  run_found :
      (packet : Packet) (func : RunFunc (DbAgent R C)) (p : ℕ) (w : World (DbAgent R C))
      → find (packet_type packet) (db_agent_table ado) ≡ some func
      → run (db_agent_table ado) p packet w ≡ func p packet w
  unfolding run
  run_found packet func p w e = rw (e, run) refl

  -- Both handlers do nothing but put their query into the pool.
  abbrev pub asked : Query R → World (DbAgent R C) → World (DbAgent R C)
  asked query w = record w { own = record w.own { query_pool = push query w.own.query_pool } }

  pub run-id_pw :
      (p client_id : ℕ) (id password : List ℕ) (w : World (DbAgent R C))
      → run (db_agent_table ado) p (account (i_db_req_id_pw client_id id password)) w
        ≡ some (tt, asked (id_pw_query ado client_id id password) w)
  unfolding i_db_req_id_pw_func push_query packet_type
  run-id_pw p client_id id password w =
      run_found (account (i_db_req_id_pw client_id id password)) (i_db_req_id_pw_func ado) p w
        (handlers.0)

  pub run-load_data :
      (p client_id oid_account_id : ℕ) (w : World (DbAgent R C))
      → run (db_agent_table ado) p (notice (i_db_req_load_data client_id oid_account_id)) w
        ≡ some (tt, asked (load_data_query ado client_id oid_account_id) w)
  unfolding i_db_req_load_data_func push_query packet_type
  run-load_data p client_id oid_account_id w =
      run_found (notice (i_db_req_load_data client_id oid_account_id)) (i_db_req_load_data_func ado)
        p w (handlers.1)

  -- A query that is new in the pool, behind all others, and the values that its statement gives to the
  -- procedure.
  pub record IsAsked (w v : World (DbAgent R C)) (kind : QueryKind) (client_id : ℕ)
      (procedure : List ℕ) (values : List (List ℕ)) : Type 0 where
    pub query : Query R
    pub pool : jobs v.own.query_pool ≡ jobs w.own.query_pool ++ (query ∷ [])
    pub same_kind : query.kind ≡ kind
    pub same_client : query.client_id ≡ client_id
    pub fresh : query.record_set ≡ ado.created
    pub reads : read_statement procedure (length values) query.statement.query ≡ some values
    pub unsent : v.sent ≡ w.sent

  -- A question about an id and a password becomes one query for its client, whose statement gives the
  -- procedure exactly the id and the password up to their first zero byte, as the conversion widens them.
  -- The widened texts hold no quote and fit the buffer of a parameter.
  pub run-i_db_req_id_pw :
      (p client_id : ℕ) (id password : List ℕ) (w : World (DbAgent R C))
      → IsPlain (ado.widen (c_string id))
      → IsPlain (ado.widen (c_string password))
      → (v : World (DbAgent R C)) × (run
            (db_agent_table ado)
            p
            (account (i_db_req_id_pw client_id id password))
            w
          ≡ some (tt, v))
        × IsAsked w v qi_db_req_id_pw client_id account_procedure
            (ado.widen (c_string id) ∷ (ado.widen (c_string password) ∷ []))
  unfolding i_db_req_id_pw_func push_query packet_type add_params
  run-i_db_req_id_pw p client_id id password w h k =
      let query = id_pw_query ado client_id id password in
      (
        record w { own = record w.own { query_pool = push query w.own.query_pool } },
        run_found (account (i_db_req_id_pw client_id id password)) (i_db_req_id_pw_func ado) p w
            (handlers.0),
        record {
          query = query;
          pool = jobs-push query w.own.query_pool;
          same_kind = refl;
          same_client = refl;
          fresh = refl;
          reads =
              read_statement-add_params account_procedure query_call_back
                (ado.widen (c_string id) ∷ (ado.widen (c_string password) ∷ [])) (h, (k, tt));
          unsent = refl;
        },
      )

  -- A question about an account becomes one query for its client, whose statement gives the procedure the
  -- digits of the account's id, below 2^64.
  pub run-i_db_req_load_data :
      (p client_id oid_account_id : ℕ) (w : World (DbAgent R C))
      → oid_account_id < 2 ^ 64
      → (v : World (DbAgent R C)) × (digits : List ℕ) × (run
            (db_agent_table ado)
            p
            (notice (i_db_req_load_data client_id oid_account_id))
            w
          ≡ some (tt, v))
        × IsAsked w v qi_db_req_load_data client_id character_procedure (digits ∷ [])
        × (number_of 0 digits ≡ oid_account_id)
  unfolding i_db_req_load_data_func push_query packet_type add_params
  run-i_db_req_load_data p client_id oid_account_id w h =
      let query = load_data_query ado client_id oid_account_id in
      (
        record w { own = record w.own { query_pool = push query w.own.query_pool } },
        decimal 20 oid_account_id,
        run_found (notice (i_db_req_load_data client_id oid_account_id))
            (i_db_req_load_data_func ado) p w (handlers.1),
        record {
          query = query;
          pool = jobs-push query w.own.query_pool;
          same_kind = refl;
          same_client = refl;
          fresh = refl;
          reads =
              read_statement-add_params character_procedure query_call_back
                (decimal 20 oid_account_id ∷ []) (decimal-IsPlain oid_account_id, tt);
          unsent = refl;
        },
        number_of-decimal 20 oid_account_id (omega (arith, h)),
      )
