-- ===== src/SignIn/Relay.antt =====
-- The packets of a sign-in on their way, and what each arrival does to the three servers.
use graduation_server.Common.{ℕ, zero, suc, ◌≡◌, refl, some, List, [], ◌∷◌}
use graduation_server.World.{World, ServerName, Event, login_server, chatting_server, db_agent}
use graduation_server.Packet.{Packet}
use graduation_server.Contents.{run}
use graduation_server.JobQueue.{jobs}
use graduation_server.Login.{Login, login_table}
use graduation_server.Chatting.{Lobby}
use graduation_server.Chatting.Table.{chatting_table}
use graduation_server.Database.Record.{Platform}
use graduation_server.DbAgent.{DbAgent, Query, db_agent_table}
use graduation_server.DbAgent.Requests.{asked}
use graduation_server.DbAgent.Worker.Rows.{Row}
use graduation_server.DbAgent.Worker.Answers.{
  IsLinked-same, Serves, IsLinked, next, asked_rows, event_of,
}
use graduation_server.SignIn.{
  Net, net, posts, answers, at_login, at_chatting, at_agent, arrive, relay,
}
use graduation_server.SignIn.Steps.{agent_answers}

module _ {R C : Type 0} (ado : Platform R C) (rows : R → List Row) (a2w w2a : List ℕ → List ℕ)
    (leftover fuel : ℕ) (bring : ServerName → ℕ) where
  pub relay_one :
      (k : ℕ) (name : ServerName) (packet : Packet) (n v : Net R C)
      → n.pending ≡ (name, packet) ∷ []
      → arrive ado a2w w2a leftover fuel bring name packet (record n { pending = [] }) ≡ some v
      → relay ado a2w w2a leftover fuel bring (suc k) n ≡ relay ado a2w w2a leftover fuel bring k v
  unfolding relay
  relay_one k name packet n v e ran = rw (relay, e, ran) refl

  pub relay_rest :
      (k : ℕ) (l : World Login) (c : World Lobby) (a : World (DbAgent R C))
      (told : List (ℕ × Packet))
      → relay ado a2w w2a leftover fuel bring k (net l c a told []) ≡ some (net l c a told [])
  unfolding relay
  relay_rest zero l c a told = refl
  relay_rest (suc k) l c a told = refl

  pub login_step :
      (packet : Packet) (es : List Event) (l : World Login) (c : World Lobby)
      (a : World (DbAgent R C))
      → run login_table (bring login_server) packet (record l { sent = [] })
        ≡ some (tt, record l { sent = es })
      → arrive ado a2w w2a leftover fuel bring login_server packet (net l c a [] [])
        ≡ some (net (record l { sent = es }) c a (answers es) (posts es))
  unfolding arrive at_login
  login_step packet es l c a ran = rw (arrive, at_login, ran) refl

  pub chatting_step :
      (packet : Packet) (es : List Event) (l : World Login) (c : World Lobby)
      (a : World (DbAgent R C))
      → run (chatting_table a2w w2a) (bring chatting_server) packet (record c { sent = [] })
        ≡ some (tt, record c { sent = es })
      → arrive ado a2w w2a leftover fuel bring chatting_server packet (net l c a [] [])
        ≡ some (net l (record c { sent = es }) a [] (posts es))
  unfolding arrive at_chatting
  chatting_step packet es l c a ran = rw (arrive, at_chatting, ran) refl

  -- The agent after one request.
  pub record Served (query : Query R) (packet : Packet) (a v : World (DbAgent R C)) : Type 0 where
    pub ran :
        (l : World Login) (c : World Lobby)
        → arrive ado a2w w2a leftover fuel bring db_agent packet (net l c a [] [])
          ≡ some (
              net l c v [] (
                posts (
                  event_of ado rows leftover query.kind query.client_id
                    (asked_rows ado rows query a.own.connection)
                  ∷ [])))
    pub idle : jobs v.own.query_pool ≡ []
    pub connection : v.own.connection ≡ next ado rows query a.own.connection
    pub linked : IsLinked ado rows v

  pub agent_step :
      (query : Query R) (packet : Packet) (a : World (DbAgent R C))
      → Serves ado rows fuel
      → IsLinked ado rows a
      → jobs a.own.query_pool ≡ []
      → ((w : World (DbAgent R C))
          → run (db_agent_table ado) (bring db_agent) packet w ≡ some (tt, asked ado query w))
      → (v : World (DbAgent R C)) × Served query packet a v
  unfolding arrive at_agent
  agent_step query packet a serves linked idle took =
      let a' : World (DbAgent R C) = record a { sent = [] } in
      let (v, did, answered, still) =
        agent_answers ado rows leftover fuel (bring db_agent) packet query a' serves
          (IsLinked-same ado rows a a' refl linked) idle (took a') in
      (
        v,
        record {
          ran = λ l c. rw (arrive, at_agent, did, answered.sent) refl;
          idle = answered.pool;
          connection = answered.connection;
          linked = still;
        },
      )
