-- ===== src/Login/Keeping.antt =====
-- LoginServer/LoginProcess.cpp: no handler of the login server breaks the session manager.
use graduation_server.Common.{ℕ, Option, none, some, List}
use graduation_server.Packet.{Packet, account, notice}
use graduation_server.Packet.Account.{c_req_id_pw, i_db_ans_id_pw}
use graduation_server.Packet.Notice.{i_login_notify_id_loaded}
use graduation_server.Contents.Keeping.{Keeps, Keeps-fault, keeps_rules}
use graduation_server.Login.{
  c_req_id_pw_func, answer_client, i_db_ans_id_pw_func, tell_loaded, i_login_notify_id_loaded_func,
}

module _ {max : ℕ} where
  pub c_req_id_pw-Keeps : (p : ℕ) (packet : Packet) → Keeps max (c_req_id_pw_func p packet)
  unfolding c_req_id_pw_func
  c_req_id_pw-Keeps p (account (c_req_id_pw id password)) = search keeps_rules
  c_req_id_pw-Keeps p _ = Keeps-fault

  answer_client-Keeps :
      (client_id oid_account_id result : ℕ) (found : Option ℕ)
      → Keeps max (answer_client client_id oid_account_id result found)
  unfolding answer_client
  answer_client-Keeps client_id oid_account_id result none = search keeps_rules
  answer_client-Keeps client_id oid_account_id result (some q) = search keeps_rules

  pub i_db_ans_id_pw-Keeps : (p : ℕ) (packet : Packet) → Keeps max (i_db_ans_id_pw_func p packet)
  unfolding i_db_ans_id_pw_func
  i_db_ans_id_pw-Keeps p (account (i_db_ans_id_pw client_id oid_account_id result)) =
      search (keeps_rules, answer_client-Keeps)
  i_db_ans_id_pw-Keeps p _ = Keeps-fault

  tell_loaded-Keeps :
      (p : ℕ) (name : List ℕ) (found : Option ℕ) → Keeps max (tell_loaded p name found)
  unfolding tell_loaded
  tell_loaded-Keeps p name none = search keeps_rules
  tell_loaded-Keeps p name (some q) = search keeps_rules

  pub i_login_notify_id_loaded-Keeps :
      (p : ℕ) (packet : Packet) → Keeps max (i_login_notify_id_loaded_func p packet)
  unfolding i_login_notify_id_loaded_func
  i_login_notify_id_loaded-Keeps p (notice (i_login_notify_id_loaded client_id name result)) =
      search (keeps_rules, tell_loaded-Keeps)
  i_login_notify_id_loaded-Keeps p _ = Keeps-fault
