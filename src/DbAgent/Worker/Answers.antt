-- ===== src/DbAgent/Worker/Answers.antt =====
-- The answers of the database agent where the database serves it: StaticLib1/ADODatabase.cpp:143-224.
use graduation_server.Common.{
  ℕ, ◌<◌, ◌≡◌, refl, sym, ap, ap₂, ◌∙◌, true, false, Option, some, List, [], ◌∷◌, ◌++◌, append-nil,
  append_assoc, arith, length, All, ◌==◌,
}
use graduation_server.World.{
  World, Event, Terminal, to_terminal, ◌>>=◌, get_own, set_own, get_terminal, terminal_send,
  login_server, chatting_server,
}
use graduation_server.Packet.{notice}
use graduation_server.Packet.Notice.{i_db_ans_parse_data}
use graduation_server.JobQueue.{size, pop, jobs, size-jobs, first_job, pop_lem}
use graduation_server.Database.{QueryType}
use graduation_server.Database.Record.{Platform}
use graduation_server.DbAgent.{
  Query, QueryKind, qi_db_req_id_pw, qi_db_req_load_data, DbAgent, db_standby,
}
use graduation_server.DbAgent.Worker.{
  account_answer, take_name, send_loaded, destroy, run_query, execute, process,
}
use graduation_server.DbAgent.Worker.Rows.{
  Row, Fits, IsCursor, last_name, first_account, loaded_by, found_account_by, rewound_by,
}

-- The answer to a command is a record set at its first row, with fewer rows than `fuel`.
pub record Serves {R C : Type 0} (ado : Platform R C) (rows : R → List Row) (fuel : ℕ)
    : Type 0 where
  pub cursor : IsCursor ado rows
  pub answers :
      (text : List ℕ) (type : QueryType) (c : C)
      → (r : R) × ((ado.execute_command text type c).1 ≡ some (some r))
        × (rows (ado.move_first r) ≡ rows r)
        × (length (rows r) < fuel)
        × All Fits (rows r)

module _ {R C : Type 0} (ado : Platform R C) (rows : R → List Row) where
  -- The connection after a query, and the rows that answer it.
  abbrev pub next : Query R → C → C
  next query c = (ado.execute_command query.statement.query query.statement.type c).0

  abbrev pub rows_of : Option (Option R) → List Row
  rows_of (some (some r)) = rows r
  rows_of _ = []

  abbrev pub asked_rows : Query R → C → List Row
  asked_rows query c =
      rows_of ((ado.execute_command query.statement.query query.statement.type c).1)

  -- The packet that tells the server at the other end about the rows, and that server.
  abbrev pub load_event : ℕ → List ℕ × ℕ → Event
  load_event client_id (name, result) =
      to_terminal chatting_server (notice (i_db_ans_parse_data client_id name result))

  abbrev pub event_of : ℕ → QueryKind → ℕ → List Row → Event
  event_of leftover qi_db_req_id_pw client_id found =
      to_terminal login_server (account_answer leftover client_id (first_account found))
  event_of leftover qi_db_req_load_data client_id found =
      load_event client_id (take_name ado (last_name found) ([], 0))

  -- One answer for each query, in the order of the queries.
  abbrev pub events : ℕ → List (Query R) → C → List Event
  events leftover [] c = []
  events leftover (query ∷ more) c =
      event_of leftover query.kind query.client_id (asked_rows query c)
      ∷ events leftover more (next query c)

  -- Both terminals that the answers go to are there and ready.
  pub record IsLinked (w : World (DbAgent R C)) : Type 0 where
    pub login : Terminal
    pub chatting : Terminal
    pub has_login : w.terminals login_server ≡ some login
    pub has_chatting : w.terminals chatting_server ≡ some chatting
    pub login_ready : login.ready ≡ true
    pub chatting_ready : chatting.ready ≡ true

  pub IsLinked-same :
      (w v : World (DbAgent R C)) → v.terminals ≡ w.terminals → IsLinked w → IsLinked v
  IsLinked-same w v e l = record {
    login = l.login;
    chatting = l.chatting;
    has_login = ap (λ t. t login_server) e ∙ l.has_login;
    has_chatting = ap (λ t. t chatting_server) e ∙ l.has_chatting;
    login_ready = l.login_ready;
    chatting_ready = l.chatting_ready;
  }

  destroy_by :
      (kind : QueryKind) (leftover fuel : ℕ) (query : Query R) (r : R) (w : World (DbAgent R C))
      → IsCursor ado rows
      → query.kind ≡ kind
      → query.record_set ≡ some r
      → rows (ado.move_first r) ≡ rows r
      → length (rows r) < fuel
      → All Fits (rows r)
      → IsLinked w
      → destroy ado leftover fuel query w
        ≡ some (
          tt,
          record w { sent = w.sent ++ (event_of leftover kind query.client_id (rows r) ∷ []) },
        )
  unfolding destroy get_terminal terminal_send send_loaded
  destroy_by qi_db_req_id_pw leftover fuel query r w cursor k e again room short l =
      let (q, back, same) = rewound_by ado rows cursor (rows r) r refl again in
      let found = found_account_by ado rows cursor (rows r) q same in
      rw (k, e, back, found, ◌>>=◌, l.has_login, l.login_ready) refl
  destroy_by qi_db_req_load_data leftover fuel query r w cursor k e again room short l =
      let (q, back, same) = rewound_by ado rows cursor (rows r) r refl again in
      let found = loaded_by ado rows cursor (rows r) fuel q ([], 0) same room short in
      rw (k, e, back, found, ◌>>=◌, l.has_chatting, l.chatting_ready) refl

  -- What is left after the first of the queries in the pool.
  pub record IsAnswered (leftover : ℕ) (query : Query R) (rest : List (Query R))
      (w v : World (DbAgent R C)) : Type 0 where
    pub pool : jobs v.own.query_pool ≡ rest
    pub connection : v.own.connection ≡ next query w.own.connection
    pub sent :
        v.sent
        ≡ w.sent
          ++ (event_of leftover query.kind query.client_id (asked_rows query w.own.connection) ∷ [])
    pub linked : IsLinked w → IsLinked v

  pub execute_first :
      (leftover fuel : ℕ) (query : Query R) (rest : List (Query R)) (w : World (DbAgent R C))
      → Serves ado rows fuel
      → IsLinked w
      → jobs w.own.query_pool ≡ query ∷ rest
      → (v : World (DbAgent R C)) × (execute ado leftover fuel w ≡ some (tt, v))
        × IsAnswered leftover query rest w v
  unfolding execute run_query get_own set_own
  execute_first leftover fuel query rest w serves l e =
      let (q, popped, left) = pop_lem w.own.query_pool in
      let (r, given, again, room, short) =
        serves.answers query.statement.query query.statement.type w.own.connection in
      let some_jobs : (size w.own.query_pool == 0) ≡ false =
        ground (arith, size-jobs w.own.query_pool, e) in
      let first : pop w.own.query_pool ≡ some (some query, q) =
        popped ∙ ap (λ js. some ((first_job js).0, q)) e in
      let ready : World (DbAgent R C) = record w {
        own = record {
          query_pool = q;
          connection = next query w.own.connection;
          state = db_standby;
        };
      } in
      let linked : IsLinked ready = IsLinked-same w ready refl l in
      let ended_well =
        destroy_by query.kind leftover fuel (record query { record_set = some r }) r ready
          serves.cursor refl refl again room short linked in
      (
        record ready {
          sent = w.sent ++ (event_of leftover query.kind query.client_id (rows r) ∷ []);
        },
        rw (some_jobs, first, ◌>>=◌, given) ended_well,
        record {
          pool = left ∙ ap (λ js. (first_job js).1) e;
          connection = refl;
          sent = rw (given) refl;
          linked = IsLinked-same _ _ refl;
        },
      )

  process_by :
      (queries : List (Query R)) (leftover fuel : ℕ) (w : World (DbAgent R C))
      → Serves ado rows fuel
      → IsLinked w
      → jobs w.own.query_pool ≡ queries
      → (v : World (DbAgent R C)) × (process ado leftover fuel (length queries) w ≡ some (tt, v))
        × (jobs v.own.query_pool ≡ [])
        × (v.sent ≡ w.sent ++ events leftover queries w.own.connection)
  unfolding process
  process_by [] leftover fuel w serves l e = (w, refl, e, sym (append-nil w.sent))
  process_by (query ∷ rest) leftover fuel w serves l e =
      let (u, ran, a) = execute_first leftover fuel query rest w serves l e in
      let (v, ran_on, none_left, sent) =
        process_by rest leftover fuel u serves (a.linked l) a.pool in
      (
        v,
        rw (ran, ◌>>=◌) ran_on,
        none_left,
        sent
            ∙ ap₂ (λ before c. before ++ events leftover rest c) a.sent a.connection
            ∙ append_assoc w.sent _ (events leftover rest (next query w.own.connection)),
      )

  -- Each query in the pool is answered, once and in the order of the pool, by as many rounds of the
  -- worker as there are queries: to the login server with the account id of the first row, and to the
  -- chatting server with the last name that a row has. The database answers each command with a record
  -- set of fewer rows than the fuel, whose names fit the buffer, and both terminals are ready.
  pub process-answers :
      (leftover fuel : ℕ) (w : World (DbAgent R C))
      → Serves ado rows fuel
      → IsLinked w
      → (v : World (DbAgent R C)) × (process ado leftover fuel (length (jobs w.own.query_pool)) w
          ≡ some (tt, v))
        × (jobs v.own.query_pool ≡ [])
        × (v.sent ≡ w.sent ++ events leftover (jobs w.own.query_pool) w.own.connection)
  process-answers leftover fuel w serves l =
      process_by (jobs w.own.query_pool) leftover fuel w serves l refl
