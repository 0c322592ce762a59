-- ===== src/Tests/Joined.antt =====
-- A run of three servers: a client signs in.
use graduation_server.Common.{ℕ, ◌≡◌, refl, true, Option, some, List, [], ◌∷◌}
use graduation_server.DbAgent.Worker.Rows.{Row}
use graduation_server.World.{World, Terminal, ServerName}
use graduation_server.Packet.{account}
use graduation_server.Packet.Account.{s_ans_id_pw_success}
use graduation_server.JobQueue.{jobs, read_queue, write_queue}
use graduation_server.Login.{Login}
use graduation_server.Chatting.{Lobby}
use graduation_server.DbAgent.{DbAgent, db_standby}
use graduation_server.SignIn.{Net, net, sign_in}
use graduation_server.SignIn.Outcome.{IsJoined, sign_in-tells}
use graduation_server.Tests.SessionList.{
  two_sessions, two_sessions-IsValid, server_session, client_session, alive, listed,
}
use graduation_server.Tests.Servers.{chatting_terminal}
use graduation_server.Tests.Queries.{served, same_rows, served-Serves}

abbrev all_ready : ServerName → Option Terminal
all_ready name = some chatting_terminal

-- Packets of other servers come over the session at 100.
abbrev bring : ServerName → ℕ
bring name = 100

abbrev same_text : List ℕ → List ℕ
same_text text = text

abbrev login_side : World Login
login_side = record {
  sessions = two_sessions 9;
  terminals = all_ready;
  now = 8;
  sent = [];
  own = tt;
}

abbrev chatting_side : World Lobby
chatting_side = record {
  sessions = two_sessions 9;
  terminals = all_ready;
  now = 8;
  sent = [];
  own = record { user_pool = []; session_storage = []; room_array = [] };
}

abbrev agent_side : World (DbAgent (List Row) (Unit {0}))
agent_side = record {
  sessions = two_sessions 9;
  terminals = all_ready;
  now = 8;
  sent = [];
  own = record {
    query_pool = record { queue_write = []; queue_read = []; writes_first = true };
    connection = tt;
    state = db_standby;
  };
}

joined :
    IsJoined served same_rows same_text same_text 0 9 bring chatting_terminal login_side
      chatting_side agent_side
unfolding jobs read_queue write_queue
joined = record {
  valid = two_sessions-IsValid 9;
  agent = chatting_terminal;
  has_agent = refl;
  agent_ready = refl;
  has_chats = refl;
  chats_ready = refl;
  carrier = server_session;
  has_carrier = alive.0;
  asks = chatting_terminal;
  has_asks = refl;
  asks_ready = refl;
  tells = chatting_terminal;
  has_tells = refl;
  tells_ready = refl;
  linked = record {
    login = chatting_terminal;
    chatting = chatting_terminal;
    has_login = refl;
    has_chatting = refl;
    login_ready = refl;
    chatting_ready = refl;
  };
  idle = refl;
}

sign_in-tells_example :
    (v : Net (List Row) (Unit {0})) × (sign_in served same_text same_text 0 9 bring 200
        (97 ∷ [])
        (98 ∷ [])
        (net login_side chatting_side agent_side [] [])
      ≡ some v)
    × (v.pending ≡ [])
    × (v.told ≡ (200, account (s_ans_id_pw_success (49 ∷ []) 9000 (66 ∷ []))) ∷ [])
sign_in-tells_example =
    sign_in-tells served same_rows same_text same_text 0 9 bring chatting_terminal 200
      client_session login_side chatting_side alive.1 listed.1 served-Serves (97 ∷ []) (98 ∷ [])
      agent_side joined
