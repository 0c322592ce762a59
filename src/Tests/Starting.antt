-- ===== src/Tests/Starting.antt =====
-- Starts of servers from one small configuration, whose elements are numbers: two terminals of one name, and
-- the number 2 wherever a number is asked for.
use graduation_server.Common.{
  ℕ, ◌+◌, ◌≡◌, ◌↔◌, ◌⊎◌, ◌≤◌, ◌<◌, ◌^◌, refl, arith, true, Option, none, some, [], ◌∷◌, find,
}
use graduation_server.Config.{
  ok, Xml, Tag, app, server, ip, port, thread_count, name, terminal, contents, data_base,
  server_name, db, login, password, task, part, text_of, int_of, ip_of,
}
use graduation_server.Config.Startup.{start_contents, bounded, start_contents-bounded}
use graduation_server.Config.Terminals.{TerminalObject, TerminalManager, new_terminal}
use graduation_server.Config.Terminals
use graduation_server.Config.Terminals.Table.{configured, Holds, initialize-Holds}
use graduation_server.Tasks.{TaskManager}
use graduation_server.Tasks.Spread.{Request, turns, add_all, initialize-add_all}
use graduation_server.Tasks.Spread
use graduation_server.DbAgent.Connect.{Account, read_account}
use graduation_server.DbAgent.Connect
use graduation_server.DbAgent.Connect.Providers.{
  started, first_opening, providers, initialize-started,
}
use graduation_server.Database.Values.{RecordSet, get_int64, get_int64_iff}

-- The part under each name; the text under every leaf is "2".
abbrev child : Tag → ℕ → Option ℕ
child app n = some 1
child terminal n = some 2
child task n = some 3
child data_base n = some 4
child server n = none
child contents n = some 7
child name n = none
child ip n = some 9
child port n = some 9
child thread_count n = some 9
child server_name n = some 9
child db n = some 9
child login n = some 9
child password n = some 9

abbrev small_xml : Xml ℕ
small_xml = record {
  first_child = child;
  elements = λ n. 5 ∷ (6 ∷ []);
  value = λ n. 65 ∷ [];
  get_text = λ n. some (50 ∷ []);
  scan = λ text. some 2;
  widen = λ size before text. 65 ∷ [];
}

abbrev one_terminal : TerminalObject
one_terminal = record { name = 65 ∷ []; ip = 50 ∷ []; port = 2 }

abbrev no_terminals : TerminalManager
no_terminals = record { pool = []; running = [] }

terminals_there : part small_xml terminal 0 ≡ ok (some 2)
unfolding part
terminals_there = refl

both_configured : configured small_xml 0 [] (5 ∷ (6 ∷ [])) ≡ ok (one_terminal ∷ (one_terminal ∷ []))
unfolding new_terminal int_of ip_of text_of
both_configured = refl

initialize-Holds_example :
    (v : TerminalManager) × (Terminals.initialize small_xml 0 [] 0 no_terminals ≡ ok v)
    × Holds small_xml 0 [] no_terminals (one_terminal ∷ (one_terminal ∷ [])) v
initialize-Holds_example =
    initialize-Holds small_xml 0 [] 0 2 no_terminals (one_terminal ∷ (one_terminal ∷ []))
      terminals_there both_configured

abbrev report : ℕ → Request
report n = record { now = 100; place = n; work = some n; freq = 1; duration = 0 }

tasks_there : part small_xml task 0 ≡ ok (some 3)
unfolding part
tasks_there = refl

two_asked : (n leftover : ℕ) → int_of small_xml Tag.thread_count leftover n ≡ ok 2
unfolding int_of text_of
two_asked n leftover = refl

-- Three nodes on two threads; task 1 gets the second.
initialize-add_all_example :
    (m v : TaskManager) × (Spread.initialize small_xml 0
        (record { thread_count = 7; task_pool = []; node_count = 0 })
      ≡ ok m)
    × (add_all (report 30 ∷ (report 31 ∷ (report 32 ∷ []))) m ≡ some v)
    × (find 1 v.task_pool ≡ some (turns 2 1 0 (report 30 ∷ (report 31 ∷ (report 32 ∷ [])))))
initialize-add_all_example =
    initialize-add_all small_xml 0 3 7 2 1 (report 30 ∷ (report 31 ∷ (report 32 ∷ []))) tasks_there
      (two_asked 3 7) (omega arith) (omega arith) (ground arith)

abbrev any_account : Account
any_account = record { server = 65 ∷ []; name = 65 ∷ []; id = 65 ∷ []; word = 65 ∷ [] }

databases_there : part small_xml data_base 0 ≡ ok (some 4)
unfolding part
databases_there = refl

account_read : read_account small_xml (λ str. true) true [] 4 ≡ ok any_account
unfolding read_account text_of
account_read = refl

initialize-started_example :
    Connect.initialize small_xml (λ str. true) true 7 [] 0
    ≡ started (λ str. true) any_account 2 (first_opening (λ str. true) any_account providers)
initialize-started_example =
    initialize-started small_xml (λ str. true) 0 4 7 2 [] any_account databases_there
      (two_asked 4 7) (omega arith) account_read

-- A record set of one value, 2 ^ 32.
abbrev wide_value : RecordSet (Unit {0})
wide_value = record {
  is_open = λ r. true;
  close = λ r. some r;
  move_previous = λ r. none;
  move_last = λ r. some r;
  payload = λ field r. some 4294967296;
}

get_int64_iff_example :
    (get_int64 wide_value [] tt ≡ some 4294967296)
    ↔ ((4294967296 < 2 ^ 31) ⊎ (2 ^ 64 ≤ 4294967296 + 2 ^ 31))
get_int64_iff_example = get_int64_iff wide_value [] tt 4294967296 refl (omega arith)

contents_there : part small_xml contents 0 ≡ ok (some 7)
unfolding part
contents_there = refl

start_contents-bounded_example : start_contents small_xml 0 ≡ bounded 2
start_contents-bounded_example =
    start_contents-bounded small_xml 0 7 2 contents_there (two_asked 7 0)
