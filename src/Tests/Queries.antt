-- ===== src/Tests/Queries.antt =====
-- Runs of the database agent: a database of one account and two characters.
use graduation_server.Common.{
  ℕ, ◌≡◌, ◌≢◌, refl, Option, none, some, true, List, [], ◌∷◌, arith, ap, All, running, ◌<◌, Bool,
  false, length,
}
use graduation_server.World.{
  World, Terminal, ServerName, to_terminal, login_server, chatting_server, in_game_server, db_agent,
}
use graduation_server.Packet.{account, notice}
use graduation_server.Packet.Account.{i_db_req_id_pw, i_db_ans_id_pw}
use graduation_server.Packet.Notice.{i_db_ans_parse_data}
use graduation_server.Contents.{run}
use graduation_server.JobQueue.{JobQueue, jobs, read_queue, write_queue}
use graduation_server.Stream.{c_string}
use graduation_server.Database.{query_call_back, set_query, add_params}
use graduation_server.Database.Quoting.{IsPlain, query-add_params_split}
use graduation_server.Database.Record.{Platform}
use graduation_server.DbAgent.{
  Query, qi_db_req_id_pw, DbAgent, db_standby, account_procedure, id_pw_query, load_data_query,
  db_agent_table,
}
use graduation_server.DbAgent.Requests.{IsAsked, run-i_db_req_id_pw}
use graduation_server.DbAgent.Worker.{loaded, rewound, process}
use graduation_server.DbAgent.Worker.Answers.{Serves, IsLinked, process-answers}
use graduation_server.DbAgent.Worker.Rows.{Row, Fits, IsCursor}
use graduation_server.DbAgent.Worker.Failures.{IsClosed, loaded-answered}
use graduation_server.Tests.SessionList.{two_sessions}
use graduation_server.Tests.Servers.{chatting_terminal}

abbrev two_characters : List Row
two_characters =
    record { account_id = some 7; name = some (65 ∷ []) }
    ∷ (record { account_id = none; name = some (66 ∷ []) } ∷ [])

abbrev at_end : List Row → Option Bool
at_end [] = some true
at_end (row ∷ rest) = some false

abbrev behind : List Row → List Row
behind [] = []
behind (row ∷ rest) = rest

abbrev number_in : List Row → Option ℕ
number_in [] = none
number_in (row ∷ rest) = row.account_id

abbrev text_in : List Row → Option (List ℕ)
text_in [] = none
text_in (row ∷ rest) = row.name

-- A record set is the list of its rows; a connection is nothing. The columns are not told apart by name.
abbrev pub served : Platform (List Row) (Unit {0})
served = record {
  created = some [];
  end_of_file = at_end;
  move_next = behind;
  move_first = λ r. r;
  int_val = λ field r. number_in r;
  text = λ field r. text_in r;
  execute_command = λ text type c. (tt, some (some two_characters));
  widen = λ text. text;
  narrow = λ text. text;
}

abbrev pub same_rows : List Row → List Row
same_rows r = r

served-IsCursor : IsCursor served same_rows
served-IsCursor = record {
  at_end = λ r e. ap at_end e;
  at_row = λ r row rest e. (ap at_end e, ap number_in e, ap text_in e, ap behind e);
}

two_characters-Fits : (length two_characters < 9) × All Fits two_characters
two_characters-Fits = (ground arith, ((λ value e. ground arith), ((λ value e. ground arith), tt)))

pub served-Serves : Serves served same_rows 9
served-Serves = record {
  cursor = served-IsCursor;
  answers =
      λ text type c. (two_characters, refl, refl, two_characters-Fits.0, two_characters-Fits.1);
}

abbrev ready_terminals : ServerName → Option Terminal
ready_terminals login_server = some chatting_terminal
ready_terminals chatting_server = some chatting_terminal
ready_terminals in_game_server = none
ready_terminals db_agent = none

-- Two queries wait, the first of them in the queue to read.
abbrev waiting : JobQueue (Query (List Row))
waiting = record {
  queue_write = load_data_query served 5 7 ∷ [];
  queue_read = id_pw_query served 4 (97 ∷ []) (98 ∷ []) ∷ [];
  writes_first = true;
}

abbrev agent_world : World (DbAgent (List Row) (Unit {0}))
agent_world = record {
  sessions = two_sessions 9;
  terminals = ready_terminals;
  now = 8;
  sent = [];
  own = record { query_pool = waiting; connection = tt; state = db_standby };
}

agent_world-IsLinked : IsLinked served same_rows agent_world
agent_world-IsLinked = record {
  login = chatting_terminal;
  chatting = chatting_terminal;
  has_login = refl;
  has_chatting = refl;
  login_ready = refl;
  chatting_ready = refl;
}

process-answers_example :
    (v : World (DbAgent (List Row) (Unit {0}))) × (process served 0 9 2 agent_world ≡ some (tt, v))
    × (jobs v.own.query_pool ≡ [])
    × (v.sent
        ≡ to_terminal login_server (account (i_db_ans_id_pw 4 7 1))
          ∷ (to_terminal chatting_server (notice (i_db_ans_parse_data 5 (66 ∷ []) 1)) ∷ []))
unfolding jobs read_queue write_queue
process-answers_example =
    process-answers served same_rows 0 9 agent_world served-Serves agent_world-IsLinked

plain : (c : ℕ) → c ≢ 39 → IsPlain (c ∷ [])
plain c h = record { no_quote = (h, tt); short = omega arith }

run-i_db_req_id_pw_example :
    (v : World (DbAgent (List Row) (Unit {0}))) × (run
        (db_agent_table served)
        200
        (account (i_db_req_id_pw 4 (97 ∷ []) (98 ∷ [])))
        agent_world
      ≡ some (tt, v))
    × IsAsked served agent_world v qi_db_req_id_pw 4 account_procedure
        ((97 ∷ []) ∷ ((98 ∷ []) ∷ []))
unfolding c_string
run-i_db_req_id_pw_example =
    run-i_db_req_id_pw served 200 4 (97 ∷ []) (98 ∷ []) agent_world (plain 97 λ e. omega (arith, e))
      (plain 98 λ e. omega (arith, e))

query-add_params_split_example :
    (add_params
      ((97 ∷ (39 ∷ (44 ∷ (32 ∷ (39 ∷ (98 ∷ [])))))) ∷ [])
      (set_query account_procedure query_call_back)).query
    ≡ (add_params
        ((97 ∷ []) ∷ ((98 ∷ []) ∷ []))
        (set_query account_procedure query_call_back)).query
query-add_params_split_example =
    query-add_params_split account_procedure query_call_back (97 ∷ []) (98 ∷ []) (ground arith)

-- A database whose commands all fail; a record set is nothing but closed.
abbrev failing : Platform (Unit {0}) (Unit {0})
failing = record {
  created = some tt;
  end_of_file = λ r. none;
  move_next = λ r. r;
  move_first = λ r. r;
  int_val = λ field r. none;
  text = λ field r. none;
  execute_command = λ text type c. (tt, none);
  widen = λ text. text;
  narrow = λ text. text;
}

failing-IsClosed : IsClosed failing tt
failing-IsClosed = record {
  no_end = refl;
  no_number = refl;
  no_text = refl;
  stays = refl;
  stays_first = refl;
}

abbrev failing_agent : DbAgent (Unit {0}) (Unit {0})
failing_agent = record {
  query_pool = record { queue_write = []; queue_read = []; writes_first = true };
  connection = tt;
  state = db_standby;
}

abbrev failing_world : World (DbAgent (Unit {0}) (Unit {0}))
failing_world = record {
  sessions = two_sessions 9;
  terminals = ready_terminals;
  now = 8;
  sent = [];
  own = failing_agent;
}

loaded-answered_example : loaded failing 1000 (rewound failing (some tt)) ([], 0) ≡ running
loaded-answered_example =
    loaded-answered failing 1000 (load_data_query failing 5 7) tt tt failing_agent refl
      failing-IsClosed
