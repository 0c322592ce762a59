-- ===== src/SignIn/Steps.antt =====
-- The steps of a sign-in, each at its server: LoginServer/LoginProcess.cpp, ChattingServer/ChattingProcess.cpp
-- and the queries of DBAgent.
use graduation_server.Common.{
  ℕ, ◌%◌, ◌^◌, ◌≡◌, refl, sym, ap, ◌∙◌, inl, inr, true, Option, some, List, [], ◌∷◌, ◌++◌, find,
  insert,
}
use graduation_server.Sessions.{Session, SessionManager, contains, search_list}
use graduation_server.Sessions.Lookup.{IsValid, Finds, search_list_listed}
use graduation_server.World.{
  World, Terminal, to_session, to_terminal, login_server, chatting_server, db_agent, ◌>>=◌, ◌>>◌,
  get_terminal, terminal_send,
}
use graduation_server.Packet.{Packet, account, notice, packet_type}
use graduation_server.Packet.Account.{i_db_ans_id_pw, s_ans_id_pw_fail, s_ans_id_pw_success}
use graduation_server.Packet.Notice.{
  i_chtting_notify_id, i_db_req_load_data, i_db_ans_parse_data, i_login_notify_id_loaded,
}
use graduation_server.Packet.Codes.{e_i_chtting_notify_id, e_i_db_ans_parse_data}
use graduation_server.Contents.{
  RunFunc, run, initialize, regist_default_packet_func, regist_sub_packet_func,
}
use graduation_server.JobQueue.{jobs, jobs-push}
use graduation_server.Login.{Login, login_table}
use graduation_server.Login.Outcomes.{run-i_db_ans_id_pw, run-i_login_notify_id_loaded}
use graduation_server.Chatting.{Lobby}
use graduation_server.Chatting.Handlers.{i_chtting_notify_id_func, i_db_ans_parse_data_func}
use graduation_server.Chatting.Table.{chatting_table}
use graduation_server.Database.Record.{Platform}
use graduation_server.DbAgent.{Query, DbAgent, db_agent_table}
use graduation_server.DbAgent.Requests.{asked}
use graduation_server.DbAgent.Worker.{process}
use graduation_server.DbAgent.Worker.Rows.{Row}
use graduation_server.DbAgent.Worker.Answers.{
  IsLinked-same, Serves, IsLinked, IsAnswered, execute_first,
}

-- A lookup by the id of a listed session gives that session and no other.
Finds-listed :
    (p : ℕ) (s : Session) (m : SessionManager) (r : Option ℕ)
    → IsValid m
    → find p m.heap ≡ some s
    → contains p m.session_list ≡ true
    → Finds m.heap m.session_list s.id (some r)
    → r ≡ some p
Finds-listed p s m r v f c (inl (e, absent)) = absurd (absent p s c f refl)
Finds-listed p s m r v f c (inr (q, x, e, listed, there, same)) =
    let mine = search_list_listed m.heap m.session_seed 1 m.session_list p s v.ordered f c in
    let other =
      search_list_listed m.heap m.session_seed 1 m.session_list q x v.ordered there listed in
    inner (sym (ap (λ id. search_list m.session_seed m.heap id m.session_list) same ∙ mine) ∙ other)
      e
  where
    inner :
        {a b : ℕ} {c : Option ℕ}
        → ◌≡◌ {A = Option (Option ℕ)} (some (some a)) (some (some b))
        → ◌≡◌ {A = Option (Option ℕ)} (some c) (some (some b))
        → c ≡ some a
    inner h k = cc

module _ (p q : ℕ) (s : Session) (w : World Login) (valid : IsValid w.sessions)
    (here : find p w.sessions.heap ≡ some s) (listed : contains p w.sessions.session_list ≡ true)
    (t : Terminal) (chats : w.terminals chatting_server ≡ some t) where
  pub told_refused :
      (oid : ℕ)
      → run login_table q (account (i_db_ans_id_pw s.id oid 0)) w
        ≡ some (tt, record w { sent = w.sent ++ (to_session p (account s_ans_id_pw_fail) ∷ []) })
  told_refused oid =
      let (r, finds, ran) = run-i_db_ans_id_pw q s.id oid 0 w t valid chats in
      let found = Finds-listed p s w.sessions r valid here listed finds in ran ∙ rw (found) refl

  pub told_accepted :
      (oid : ℕ)
      → t.ready ≡ true
      → run login_table q (account (i_db_ans_id_pw s.id oid 1)) w
        ≡ some (
          tt,
          record w {
            sent =
                w.sent
                ++ (to_terminal chatting_server (notice (i_chtting_notify_id s.id oid)) ∷ []);
          },
        )
  told_accepted oid ready =
      let (r, finds, ran) = run-i_db_ans_id_pw q s.id oid 1 w t valid chats in
      let found = Finds-listed p s w.sessions r valid here listed finds in
      ran ∙ rw (found, ready) refl

  module _ (x : Session) (over : find q w.sessions.heap ≡ some x) where
    pub told_nothing :
        (name : List ℕ)
        → run login_table q (notice (i_login_notify_id_loaded s.id name 0)) w
          ≡ some (tt, record w { sent = w.sent ++ [] })
    told_nothing name =
        let (r, finds, ran) = run-i_login_notify_id_loaded q s.id 0 name w x t valid over chats in
        ran ∙ refl

    pub told_success :
        (name : List ℕ)
        → run login_table q (notice (i_login_notify_id_loaded s.id name 1)) w
          ≡ some (
            tt,
            record w {
              sent =
                  w.sent
                  ++ (to_session p (account (s_ans_id_pw_success t.ip (t.port % 2 ^ 32) name))
                      ∷ []);
            },
          )
    told_success name =
        let (r, finds, ran) = run-i_login_notify_id_loaded q s.id 1 name w x t valid over chats in
        let found = Finds-listed p s w.sessions r valid here listed finds in ran ∙ rw (found) refl

module _ (a2w w2a : List ℕ → List ℕ) (q : ℕ) (w : World Lobby) (t : Terminal) where
  handlers :
      (find e_i_chtting_notify_id (chatting_table a2w w2a) ≡ some i_chtting_notify_id_func)
      × (find e_i_db_ans_parse_data (chatting_table a2w w2a) ≡ some i_db_ans_parse_data_func)
  unfolding initialize regist_sub_packet_func regist_default_packet_func find insert
  handlers = (refl, refl)

  run_found :
      (packet : Packet) (func : RunFunc Lobby)
      → find (packet_type packet) (chatting_table a2w w2a) ≡ some func
      → run (chatting_table a2w w2a) q packet w ≡ func q packet w
  unfolding run
  run_found packet func e = rw (e, run) refl

  pub notified :
      (client oid : ℕ)
      → w.terminals db_agent ≡ some t
      → t.ready ≡ true
      → run (chatting_table a2w w2a) q (notice (i_chtting_notify_id client oid)) w
        ≡ some (
          tt,
          record w {
            sent = w.sent ++ (to_terminal db_agent (notice (i_db_req_load_data client oid)) ∷ []);
          },
        )
  unfolding packet_type i_chtting_notify_id_func get_terminal terminal_send
  notified client oid there ready =
      run_found (notice (i_chtting_notify_id client oid)) i_chtting_notify_id_func handlers.0
      ∙ rw (there, ready) refl

  pub parsed :
      (client result : ℕ) (name : List ℕ)
      → w.terminals login_server ≡ some t
      → t.ready ≡ true
      → run (chatting_table a2w w2a) q (notice (i_db_ans_parse_data client name result)) w
        ≡ some (
          tt,
          record w {
            sent =
                w.sent
                ++ (to_terminal login_server (notice (i_login_notify_id_loaded client name result))
                    ∷ []);
          },
        )
  unfolding packet_type i_db_ans_parse_data_func get_terminal terminal_send
  parsed client result name there ready =
      run_found (notice (i_db_ans_parse_data client name result)) i_db_ans_parse_data_func
        handlers.1
      ∙ rw (there, ready) refl

module _ {R C : Type 0} (ado : Platform R C) (rows : R → List Row) where
  -- A request to an agent with an empty pool is answered at once.
  pub agent_answers :
      (leftover fuel q : ℕ) (packet : Packet) (query : Query R) (w : World (DbAgent R C))
      → Serves ado rows fuel
      → IsLinked ado rows w
      → jobs w.own.query_pool ≡ []
      → run (db_agent_table ado) q packet w ≡ some (tt, asked ado query w)
      → (v : World (DbAgent R C)) × ((run (db_agent_table ado) q packet
              >> process ado leftover fuel 1)
            w
          ≡ some (tt, v))
        × IsAnswered ado rows leftover query [] (asked ado query w) v
        × IsLinked ado rows v
  unfolding process
  agent_answers leftover fuel q packet query w serves linked empty ran =
      let still : IsLinked ado rows (asked ado query w) =
        IsLinked-same ado rows w (asked ado query w) refl linked in
      let only : jobs (asked ado query w).own.query_pool ≡ query ∷ [] =
        jobs-push query w.own.query_pool ∙ ap (λ js. js ++ (query ∷ [])) empty in
      let (v, did, answered) =
        execute_first ado rows leftover fuel query [] (asked ado query w) serves still only in
      (v, rw (ran, ◌>>=◌, did) refl, answered, answered.linked still)
