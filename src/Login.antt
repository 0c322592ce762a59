-- ===== src/Login.antt =====
-- LoginServer/LoginProcess.cpp: signing in. The server keeps nothing between packets: the id of the
-- client's session travels with the question to the database agent and back.
pub mod Outcomes
pub mod Keeping
use graduation_server.Common.{ℕ, ◌%◌, ◌^◌, Option, none, some, List, [], ◌∷◌, if◌then◌else◌, ◌==◌}
use graduation_server.World.{
  World, Action, done, fault, ◌>>=◌, ◌>>◌, deref, send_packet, get_terminal, the_terminal,
  terminal_send, session_by_id, chatting_server, db_agent,
}
use graduation_server.Packet.{Packet, account, notice, lobby, battle, round}
use graduation_server.Packet.Account.{
  c_req_id_pw, s_ans_id_pw_fail, s_ans_id_pw_success, i_db_req_id_pw, i_db_ans_id_pw,
}
use graduation_server.Packet.Notice.{i_chtting_notify_id, i_login_notify_id_loaded}
use graduation_server.Packet.Codes.{e_c_req_id_pw, e_i_db_ans_id_pw, e_i_login_notify_id_loaded}
use graduation_server.Contents.{RunFunc, initialize}

-- The server has no state of its own.
abbrev pub Login : Type 0
Login = Unit {0}

-- The null pointer that `get` may answer is used as it is.
unfoldable pub c_req_id_pw_func : RunFunc Login
c_req_id_pw_func p (account (c_req_id_pw id password)) = do
  s ← deref p
  terminal ← get_terminal db_agent
  terminal_send db_agent terminal (account (i_db_req_id_pw s.id id password))
c_req_id_pw_func p _ = fault

-- What the database agent's answer does for a client's session.
unfoldable pub answer_client : ℕ → ℕ → ℕ → Option ℕ → Action Login (Unit {0})
answer_client client_id oid_account_id result none = done tt
answer_client client_id oid_account_id result (some client_session) =
    if result == 0 then send_packet client_session (account s_ans_id_pw_fail) else do
      terminal ← get_terminal chatting_server
      terminal_send chatting_server terminal (notice (i_chtting_notify_id client_id oid_account_id))

unfoldable pub i_db_ans_id_pw_func : RunFunc Login
unfolding answer_client
i_db_ans_id_pw_func p (account (i_db_ans_id_pw client_id oid_account_id result)) = do
  client_session ← session_by_id client_id
  answer_client client_id oid_account_id result client_session
i_db_ans_id_pw_func p _ = fault

-- The client is told where the chatting server is; an `int` port becomes a UInt32. The log line names
-- the address of the session that brought the packet.
unfoldable pub tell_loaded : ℕ → List ℕ → Option ℕ → Action Login (Unit {0})
tell_loaded p name none = done tt
tell_loaded p name (some client_session) = do
  terminal ← get_terminal chatting_server
  t ← the_terminal terminal
  s ← deref p
  send_packet client_session (account (s_ans_id_pw_success t.ip (t.port % 2 ^ 32) name))

unfoldable pub i_login_notify_id_loaded_func : RunFunc Login
unfolding tell_loaded
i_login_notify_id_loaded_func p (notice (i_login_notify_id_loaded client_id name result)) =
    if result == 0
    then done tt
    else do client_session ← session_by_id client_id; tell_loaded p name client_session
i_login_notify_id_loaded_func p _ = fault

-- `registSubPacketFunc` and `initialize`.
unfoldable pub login_table : List (ℕ × RunFunc Login)
login_table = initialize (
    (e_c_req_id_pw, c_req_id_pw_func)
    ∷ ((e_i_db_ans_id_pw, i_db_ans_id_pw_func)
        ∷ ((e_i_login_notify_id_loaded, i_login_notify_id_loaded_func) ∷ [])))
