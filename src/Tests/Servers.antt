-- ===== src/Tests/Servers.antt =====
-- Runs of the dispatch table and of the login server.
use graduation_server.Common.{
  ℕ, ◌≡◌, refl, true, false, Option, none, some, List, [], ◌∷◌, ◌++◌, find,
}
use graduation_server.Sessions.Lookup.{Finds}
use graduation_server.World.{
  World, Terminal, ServerName, login_server, chatting_server, in_game_server, db_agent,
}
use graduation_server.Packet.{account, packet_type}
use graduation_server.Packet.Account.{c_req_exit, i_db_ans_id_pw, s_ans_exit}
use graduation_server.Packet.Codes.{e_c_req_exit}
use graduation_server.Contents.{RunFunc, initialize, run}
use graduation_server.Contents.Dispatch.{default_funcs, run-initialize}
use graduation_server.Login.{Login, login_table, c_req_id_pw_func}
use graduation_server.Login.Outcomes.{verdict, verdict_events, run-i_db_ans_id_pw}
use graduation_server.Tests.SessionList.{two_sessions, two_sessions-IsValid}

abbrev pub chatting_terminal : Terminal
chatting_terminal = record { ready = true; ip = 49 ∷ []; port = 9000 }

-- Not connected yet.
abbrev pub agent_terminal : Terminal
agent_terminal = record { ready = false; ip = 50 ∷ []; port = 9001 }

abbrev pub terminals_of : ServerName → Option Terminal
terminals_of login_server = none
terminals_of chatting_server = some chatting_terminal
terminals_of in_game_server = none
terminals_of db_agent = some agent_terminal

abbrev pub login_world : World Login
login_world = record {
  sessions = two_sessions 9;
  terminals = terminals_of;
  now = 8;
  sent = [];
  own = tt;
}

-- A handler that replaces none.
abbrev own_funcs : List (ℕ × RunFunc Login)
own_funcs = (e_c_req_exit, c_req_id_pw_func) ∷ []

run-initialize_example :
    run (initialize own_funcs) 200 (account c_req_exit) login_world
    ≡ run (default_funcs ++ own_funcs) 200 (account c_req_exit) login_world
run-initialize_example = run-initialize own_funcs 200 (account c_req_exit) login_world

exit_type : packet_type (account c_req_exit) ≡ e_c_req_exit
unfolding packet_type
exit_type = refl

-- An answer to an exit has no handler.
unknown : find (packet_type (account s_ans_exit)) (default_funcs ++ own_funcs) ≡ none
unfolding packet_type find
unknown = refl

run-i_db_ans_id_pw_example :
    (r : Option ℕ) × Finds (two_sessions 9).heap (two_sessions 9).session_list 2 (some r)
    × (run login_table 100 (account (i_db_ans_id_pw 2 77 0)) login_world
        ≡ some (
          tt,
          record login_world { sent = [] ++ verdict_events chatting_terminal 2 77 (verdict 0 r) },
        ))
run-i_db_ans_id_pw_example =
    run-i_db_ans_id_pw 100 2 77 0 login_world chatting_terminal (two_sessions-IsValid 9) refl
