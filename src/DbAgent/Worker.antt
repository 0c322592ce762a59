-- ===== src/DbAgent/Worker.antt =====
-- StaticLib1/ADODatabase.cpp:143-224, the thread that runs the queries, and the destructors of
-- DBAgent/QI_DB_REQ_ID_PW.h and QI_DB_REQ_LOAD_DATA.h, which send the answers.
pub mod Rows
pub mod Answers
pub mod Failures
use graduation_server.Common.{
  ℕ, zero, suc, ◌+◌, ◌-◌, ◌^◌, Bool, Option, none, some, List, [], ◌∷◌, ltb, ◌==◌, if◌then◌else◌,
  Loop, ended, aborted, running,
}
use graduation_server.Common.Words.{sign_extend}
use graduation_server.World.{
  World, Action, done, fault, ◌>>=◌, ◌>>◌, get_own, set_own, get_terminal, terminal_send,
  login_server, chatting_server,
}
use graduation_server.Packet.{Packet, account, notice}
use graduation_server.Packet.Account.{i_db_ans_id_pw}
use graduation_server.Packet.Notice.{i_db_ans_parse_data}
use graduation_server.JobQueue.{JobQueue, size, pop}
use graduation_server.Database.Record.{Platform, is_eof, move_next, move_first, get_int, get_text}
use graduation_server.DbAgent.{
  Query, QueryKind, qi_db_req_id_pw, qi_db_req_load_data, DbAgent, db_standby, db_running,
}

-- "oidAccount" and "name"
abbrev pub oid_account_field : List ℕ
oid_account_field = 111 ∷ (105 ∷ (100 ∷ (65 ∷ (99 ∷ (99 ∷ (111 ∷ (117 ∷ (110 ∷ (116 ∷ [])))))))))

abbrev pub name_field : List ℕ
name_field = 110 ∷ (97 ∷ (109 ∷ (101 ∷ [])))

-- `leftover` is what an `oidAccountId_` holds that nothing was assigned to.
abbrev pub account_answer : ℕ → ℕ → Option ℕ → Packet
account_answer leftover client_id none = account (i_db_ans_id_pw client_id leftover 0)
account_answer leftover client_id (some v) = account (i_db_ans_id_pw client_id (sign_extend v) 1)

module _ {R C : Type 0} (ado : Platform R C) where
  -- The record set before the loops of both destructors.
  abbrev pub rewound : Option R → Option R
  rewound r = if is_eof ado r then r else move_first ado r

  -- The loop of `~QI_DB_REQ_ID_PW`, which ends with its first row in each case.
  abbrev pub found_account : Option R → Option ℕ
  found_account r = if is_eof ado r then none else get_int ado oid_account_field r

  -- The body of the loop of `~QI_DB_REQ_LOAD_DATA`: the name and the result so far.
  abbrev pub take_name : Option (List ℕ) → List ℕ × ℕ → List ℕ × ℕ
  take_name none answer = answer
  take_name (some value) answer = (ado.narrow value, 1)

  -- The loop itself.
  unfoldable pub loaded : ℕ → Option R → List ℕ × ℕ → Loop (List ℕ × ℕ)
  loaded zero r answer = running
  loaded (suc fuel) r answer =
      if is_eof ado r then ended answer else elim (get_text ado name_field r) [
        | none ↦ aborted
        | some name ↦ loaded fuel (move_next ado r) (take_name name answer)
      ]

  unfoldable pub send_loaded : ℕ → Loop (List ℕ × ℕ) → Action (DbAgent R C) (Unit {0})
  send_loaded client_id (ended (name, result)) = do
    terminal ← get_terminal chatting_server
    terminal_send chatting_server terminal (notice (i_db_ans_parse_data client_id name result))
  send_loaded client_id aborted = fault
  send_loaded client_id running = fault

  -- `SAFE_DELETE(query)`
  unfoldable pub destroy : ℕ → ℕ → Query R → Action (DbAgent R C) (Unit {0})
  unfolding send_loaded
  destroy leftover fuel query = elim query.kind [
    | qi_db_req_id_pw ↦ do
      terminal ← get_terminal login_server
      terminal_send login_server terminal
          (account_answer leftover query.client_id (found_account (rewound query.record_set)))
    | qi_db_req_load_data ↦
        send_loaded query.client_id (loaded fuel (rewound query.record_set) ([], 0))
  ]

  -- The `try` block and its handler: the record set goes to the query unless the command failed, and
  -- then the state stays DB_RUNNING.
  abbrev pub answered : Query R → C → Option (Option R) → DbAgent R C → Query R × DbAgent R C
  answered query c none d = (query, record d { connection = c; state = db_running })
  answered query c (some r) d =
      (record query { record_set = r }, record d { connection = c; state = db_standby })

  unfoldable pub run_query : ℕ → ℕ → Query R → Action (DbAgent R C) (Unit {0})
  unfolding destroy
  run_query leftover fuel query = do
    d ← get_own
    let (c, r) = ado.execute_command query.statement.query query.statement.type d.connection
    let (after, e) = answered query c r d
    set_own e
    destroy leftover fuel after

  -- `execute`
  unfoldable pub execute : ℕ → ℕ → Action (DbAgent R C) (Unit {0})
  unfolding run_query
  execute leftover fuel w =
      if size w.own.query_pool == 0 then done tt w else elim (pop w.own.query_pool) [
        | none ↦ none
        | some (none, q) ↦ done tt (record w { own = record w.own { query_pool = q } })
        | some (some query, q) ↦
            run_query leftover fuel query (record w { own = record w.own { query_pool = q } })
      ]

  -- `n` rounds of `process`; the check of the connection only reports.
  unfoldable pub process : ℕ → ℕ → ℕ → Action (DbAgent R C) (Unit {0})
  unfolding execute
  process leftover fuel zero = done tt
  process leftover fuel (suc n) = execute leftover fuel >> process leftover fuel n
