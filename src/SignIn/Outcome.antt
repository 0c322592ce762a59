-- ===== src/SignIn/Outcome.antt =====
-- What a sign-in comes to: LoginServer/LoginProcess.cpp, DBAgent and ChattingServer/ChattingProcess.cpp.
use graduation_server.Common.{
  ℕ, ◌%◌, ◌^◌, ◌≡◌, refl, ap, ◌∙◌, true, Option, none, some, List, [], ◌∷◌, find,
}
use graduation_server.Common.Words.{sign_extend}
use graduation_server.Sessions.{Session, contains}
use graduation_server.Sessions.Lookup.{IsValid}
use graduation_server.World.{
  World, Terminal, ServerName, Event, to_session, to_terminal, login_server, chatting_server,
  db_agent,
}
use graduation_server.Packet.{Packet, account, notice}
use graduation_server.Packet.Account.{
  s_ans_id_pw_fail, s_ans_id_pw_success, i_db_req_id_pw, i_db_ans_id_pw,
}
use graduation_server.Packet.Notice.{
  i_chtting_notify_id, i_db_req_load_data, i_db_ans_parse_data, i_login_notify_id_loaded,
}
use graduation_server.Contents.{run}
use graduation_server.JobQueue.{jobs}
use graduation_server.Login.{Login, login_table}
use graduation_server.Login.Outcomes.{run-c_req_id_pw}
use graduation_server.Chatting.{Lobby}
use graduation_server.Database.Record.{Platform}
use graduation_server.DbAgent.{DbAgent, id_pw_query, load_data_query}
use graduation_server.DbAgent.Requests.{run-id_pw, run-load_data}
use graduation_server.DbAgent.Worker.{account_answer, take_name}
use graduation_server.DbAgent.Worker.Rows.{Row, first_account, last_name}
use graduation_server.DbAgent.Worker.Answers.{Serves, IsLinked, next, asked_rows, load_event}
use graduation_server.SignIn.{Net, net, posts, answers, at_login, relay, sign_in}
use graduation_server.SignIn.Relay.{relay_one, relay_rest, login_step, chatting_step, agent_step}
use graduation_server.SignIn.Steps.{
  told_refused, told_accepted, told_nothing, told_success, notified, parsed,
}

module _ {R C : Type 0} (ado : Platform R C) (rows : R → List Row) (a2w w2a : List ℕ → List ℕ)
    (leftover fuel : ℕ) (bring : ServerName → ℕ) where
  -- All terminals that a sign-in needs are ready, the session that brings packets to the login server is
  -- there, and the agent is idle.
  pub record IsJoined (t : Terminal) (l : World Login) (c : World Lobby) (a : World (DbAgent R C))
      : Type 0 where
    pub valid : IsValid l.sessions
    pub agent : Terminal
    pub has_agent : l.terminals db_agent ≡ some agent
    pub agent_ready : agent.ready ≡ true
    pub has_chats : l.terminals chatting_server ≡ some t
    pub chats_ready : t.ready ≡ true
    pub carrier : Session
    pub has_carrier : find (bring login_server) l.sessions.heap ≡ some carrier
    pub asks : Terminal
    pub has_asks : c.terminals db_agent ≡ some asks
    pub asks_ready : asks.ready ≡ true
    pub tells : Terminal
    pub has_tells : c.terminals login_server ≡ some tells
    pub tells_ready : tells.ready ≡ true
    pub linked : IsLinked ado rows a
    pub idle : jobs a.own.query_pool ≡ []

  -- What the client is told, by the account and by the name that the database finds.
  abbrev told_name : Terminal → ℕ → Option (List ℕ) → List (ℕ × Packet)
  told_name t p none = []
  told_name t p (some name) =
      (p, account (s_ans_id_pw_success t.ip (t.port % 2 ^ 32) (ado.narrow name))) ∷ []

  abbrev told_of : Terminal → ℕ → Option ℕ → (ℕ → Option (List ℕ)) → List (ℕ × Packet)
  told_of t p none names = (p, account s_ans_id_pw_fail) ∷ []
  told_of t p (some v) names = told_name t p (names v)

  abbrev pub outcome : Terminal → ℕ → ℕ → List ℕ → List ℕ → C → List (ℕ × Packet)
  outcome t p client id password connection =
      let query = id_pw_query ado client id password in
      told_of t p (first_account (asked_rows ado rows query connection)) (λ v. last_name (
        asked_rows ado rows (load_data_query ado client (sign_extend v))
          (next ado rows query connection)))

  -- One client's session at the login server, with the servers joined.
  module _ (t : Terminal) (p : ℕ) (s : Session) (l : World Login) (c : World Lobby)
      (here : find p l.sessions.heap ≡ some s) (listed : contains p l.sessions.session_list ≡ true)
      (serves : Serves ado rows fuel) where
    -- `relay k` from a net whose client has been told nothing so far.
    abbrev Tells : ℕ → Net R C → List (ℕ × Packet) → Type 0
    Tells k n told =
        (v : Net R C) × (relay ado a2w w2a leftover fuel bring k n ≡ some v)
        × (v.pending ≡ [])
        × (v.told ≡ told)

    abbrev mailed : List Event → World Login
    mailed es = record l { sent = es }

    -- From the answer of the agent about a character on.
    name_step :
        (es fs told : List Event) (a b : World (DbAgent R C)) (name : List ℕ) (result : ℕ)
        → IsJoined t l c a
        → run login_table
            (bring login_server)
            (notice (i_login_notify_id_loaded s.id name result))
            (mailed [])
          ≡ some (tt, mailed told)
        → posts told ≡ []
        → Tells 2
            (net
              (mailed es)
              (record c { sent = fs })
              b
              []
              ((chatting_server, notice (i_db_ans_parse_data s.id name result)) ∷ []))
            (answers told)
    name_step es fs told a b name result joined ran none_left =
        let loaded = notice (i_login_notify_id_loaded s.id name result) in
        let said = to_terminal login_server loaded ∷ [] in
        let after : World Lobby = record c { sent = said } in
        let arrived =
          parsed a2w w2a (bring chatting_server) (record c { sent = [] }) joined.tells s.id result
            name joined.has_tells joined.tells_ready in
        let at_end =
          login_step ado rows a2w w2a leftover fuel bring loaded told (mailed es) after b ran
          ∙ ap (λ pending. some (net (mailed told) after b (answers told) pending)) none_left in
        (
          net (mailed told) after b (answers told) [],
          relay_one ado rows a2w w2a leftover fuel bring 1 chatting_server
                (notice (i_db_ans_parse_data s.id name result)) _ _ refl
                (chatting_step ado rows a2w w2a leftover fuel bring
                  (notice (i_db_ans_parse_data s.id name result)) said (mailed es)
                  (record c { sent = fs }) b arrived)
              ∙ relay_one ado rows a2w w2a leftover fuel bring 0 login_server loaded _ _ refl at_end
              ∙ relay_rest ado rows a2w w2a leftover fuel bring 0 _ _ _ _,
          refl,
          refl,
        )

    loaded_step :
        (es fs : List Event) (a b : World (DbAgent R C)) (name : Option (List ℕ))
        → IsJoined t l c a
        → Tells 2
            (net
              (mailed es)
              (record c { sent = fs })
              b
              []
              (posts (load_event ado rows s.id (take_name ado name ([], 0)) ∷ [])))
            (told_name t p name)
    loaded_step es fs a b none joined =
        name_step es fs [] a b [] 0 joined
          (told_nothing p (bring login_server) s (mailed []) joined.valid here listed t
            joined.has_chats joined.carrier joined.has_carrier [])
          refl
    loaded_step es fs a b (some value) joined =
        name_step es fs _ a b (ado.narrow value) 1 joined
          (told_success p (bring login_server) s (mailed []) joined.valid here listed t
            joined.has_chats joined.carrier joined.has_carrier (ado.narrow value))
          refl

    -- From an account that was found on.
    account_step :
        (es : List Event) (a b : World (DbAgent R C)) (oid : ℕ)
        → IsJoined t l c a
        → IsLinked ado rows b
        → jobs b.own.query_pool ≡ []
        → Tells 5
            (net (mailed es) c b [] ((login_server, account (i_db_ans_id_pw s.id oid 1)) ∷ []))
            (told_name t p
              (last_name (asked_rows ado rows (load_data_query ado s.id oid) b.own.connection)))
    account_step es a b oid joined linked idle =
        let notify = notice (i_chtting_notify_id s.id oid) in
        let load = notice (i_db_req_load_data s.id oid) in
        let told = to_terminal chatting_server notify ∷ [] in
        let said = to_terminal db_agent load ∷ [] in
        let after : World Lobby = record c { sent = said } in
        let accepted =
          told_accepted p (bring login_server) s (mailed []) joined.valid here listed t
            joined.has_chats oid joined.chats_ready in
        let arrived =
          notified a2w w2a (bring chatting_server) (record c { sent = [] }) joined.asks s.id oid
            joined.has_asks joined.asks_ready in
        let (d, served) =
          agent_step ado rows a2w w2a leftover fuel bring (load_data_query ado s.id oid) load b
            serves linked idle (run-load_data ado (bring db_agent) s.id oid) in
        let (v, ran, done, tells) =
          loaded_step told said a d
            (last_name (asked_rows ado rows (load_data_query ado s.id oid) b.own.connection))
            joined in
        (
          v,
          relay_one ado rows a2w w2a leftover fuel bring 4 login_server
                (account (i_db_ans_id_pw s.id oid 1)) _ _ refl
                (login_step ado rows a2w w2a leftover fuel bring
                  (account (i_db_ans_id_pw s.id oid 1)) told (mailed es) c b accepted)
              ∙ relay_one ado rows a2w w2a leftover fuel bring 3 chatting_server notify _ _ refl (
                  chatting_step ado rows a2w w2a leftover fuel bring notify said (mailed told) c b
                    arrived)
              ∙ relay_one ado rows a2w w2a leftover fuel bring 2 db_agent load _ _ refl
                  (served.ran (mailed told) after)
              ∙ ran,
          done,
          tells,
        )

    -- From the answer of the agent about the account on.
    answer_step :
        (es : List Event) (a b : World (DbAgent R C)) (found : Option ℕ)
        → IsJoined t l c a
        → IsLinked ado rows b
        → jobs b.own.query_pool ≡ []
        → Tells 5
            (net (mailed es) c b [] ((login_server, account_answer leftover s.id found) ∷ []))
            (told_of t p found (λ v.
              last_name
                (asked_rows ado rows (load_data_query ado s.id (sign_extend v)) b.own.connection)))
    answer_step es a b (some v) joined linked idle =
        account_step es a b (sign_extend v) joined linked idle
    answer_step es a b none joined linked idle =
        let answer = account (i_db_ans_id_pw s.id leftover 0) in
        let told = to_session p (account s_ans_id_pw_fail) ∷ [] in
        let refused =
          told_refused p (bring login_server) s (mailed []) joined.valid here listed t
            joined.has_chats leftover in
        (
          net (mailed told) c b (answers told) [],
          relay_one ado rows a2w w2a leftover fuel bring 4 login_server answer _ _ refl (
                login_step ado rows a2w w2a leftover fuel bring answer told (mailed es) c b refused)
              ∙ relay_rest ado rows a2w w2a leftover fuel bring 4 _ _ _ _,
          refl,
          refl,
        )

    -- A client that signs in is told once, and no other session of the login server is: that it failed where
    -- the first row for the id and the password has no account, and else where the chatting server is, with
    -- the last name that a row for the account has. A client whose account has no such name is told
    -- nothing. After six arrivals no packet is left on its way. The client's session is listed and the
    -- session manager of the login server valid, the session that brings packets to it is there, the
    -- terminals between the three servers are ready, the pool of the agent is empty, and the database
    -- answers each command with a record set of fewer rows than the fuel, whose names fit the buffer.
    pub sign_in-tells :
        (id password : List ℕ) (a : World (DbAgent R C))
        → IsJoined t l c a
        → (v : Net R C) × (sign_in ado a2w w2a leftover fuel bring p id password (net l c a [] [])
            ≡ some v)
          × (v.pending ≡ [])
          × (v.told ≡ outcome t p s.id id password a.own.connection)
    unfolding sign_in at_login
    sign_in-tells id password a joined =
        let request = account (i_db_req_id_pw s.id id password) in
        let query = id_pw_query ado s.id id password in
        let mail = to_terminal db_agent request ∷ [] in
        let asked_agent =
          run-c_req_id_pw p id password (mailed []) s joined.agent here joined.has_agent in
        let (b, served) =
          agent_step ado rows a2w w2a leftover fuel bring query request a serves joined.linked
            joined.idle (run-id_pw ado (bring db_agent) s.id id password) in
        let (v, ran, done, tells) =
          answer_step mail a b (first_account (asked_rows ado rows query a.own.connection)) joined
            served.linked served.idle in
        (
          v,
          rw (sign_in, at_login, asked_agent, joined.agent_ready)
              (relay_one ado rows a2w w2a leftover fuel bring 5 db_agent request
                  (net (mailed mail) c a [] ((db_agent, request) ∷ [])) _ refl
                  (served.ran (mailed mail) c)
                ∙ ran),
          done,
          tells
              ∙ ap
                  (λ conn.
                    told_of t p (first_account (asked_rows ado rows query a.own.connection)) (λ u.
                      last_name
                        (asked_rows ado rows (load_data_query ado s.id (sign_extend u)) conn)))
                  served.connection,
        )
