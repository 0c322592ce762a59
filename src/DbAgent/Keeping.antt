-- ===== src/DbAgent/Keeping.antt =====
-- DBAgent/DBAgentProcess.cpp and StaticLib1/ADODatabase.cpp:143-224: the requests and the workers of the
-- database agent do not break the session manager.
use graduation_server.Common.{ℕ, List, sym, ap, Loop, ended, aborted, running}
use graduation_server.World.{World}
use graduation_server.Packet.{Packet, account, notice}
use graduation_server.Packet.Account.{i_db_req_id_pw}
use graduation_server.Packet.Notice.{i_db_req_load_data}
use graduation_server.Contents.Keeping.{Keeps, Keeps-same, Keeps-fault, keeps_rules, same_world}
use graduation_server.Database.Record.{Platform}
use graduation_server.DbAgent.{
  Query, DbAgent, push_query, i_db_req_id_pw_func, i_db_req_load_data_func,
}
use graduation_server.DbAgent.Worker.{send_loaded}

module _ {R C : Type 0} (ado : Platform R C) {max : ℕ} where
  push_query-Keeps : (query : Query R) → Keeps max (push_query ado query)
  unfolding push_query
  push_query-Keeps query =
      Keeps-same (push_query ado query)
        (λ w v a e. ap (λ (x : World (DbAgent R C)). x.sessions) (sym (same_world e)))

  pub i_db_req_id_pw-Keeps :
      (p : ℕ) (packet : Packet) → Keeps max (i_db_req_id_pw_func ado p packet)
  unfolding i_db_req_id_pw_func
  i_db_req_id_pw-Keeps p (account (i_db_req_id_pw client_id id password)) = push_query-Keeps _
  i_db_req_id_pw-Keeps p _ = Keeps-fault

  pub i_db_req_load_data-Keeps :
      (p : ℕ) (packet : Packet) → Keeps max (i_db_req_load_data_func ado p packet)
  unfolding i_db_req_load_data_func
  i_db_req_load_data-Keeps p (notice (i_db_req_load_data client_id oid)) = push_query-Keeps _
  i_db_req_load_data-Keeps p _ = Keeps-fault

  send_loaded-Keeps :
      (client_id : ℕ) (answer : Loop (List ℕ × ℕ)) → Keeps max (send_loaded ado client_id answer)
  unfolding send_loaded
  send_loaded-Keeps client_id (ended (name, result)) = search keeps_rules
  send_loaded-Keeps client_id aborted = Keeps-fault
  send_loaded-Keeps client_id running = Keeps-fault
