-- ===== src/SignIn.antt =====
-- Signing in across three servers: LoginServer/LoginProcess.cpp, DBAgent/DBAgentProcess.cpp with its
-- queries, and ChattingServer/ChattingProcess.cpp:42-62. A packet for another server arrives there whole,
-- and one after the other; the database agent works its pool after each of them.
pub mod Steps
pub mod Relay
pub mod Outcome
use graduation_server.Common.{ℕ, zero, suc, Option, none, some, List, [], ◌∷◌, ◌++◌}
use graduation_server.World.{
  World, Event, to_session, to_terminal, ServerName, login_server, chatting_server, in_game_server,
  db_agent, ◌>>=◌, ◌>>◌,
}
use graduation_server.Packet.{Packet, account}
use graduation_server.Packet.Account.{c_req_id_pw}
use graduation_server.Contents.{run}
use graduation_server.Login.{Login, login_table}
use graduation_server.Chatting.{Lobby}
use graduation_server.Chatting.Table.{chatting_table}
use graduation_server.Database.Record.{Platform}
use graduation_server.DbAgent.{DbAgent, db_agent_table}
use graduation_server.DbAgent.Worker.{process}

-- The packets for other servers, and those for sessions.
abbrev pub posts : List Event → List (ServerName × Packet)
posts [] = []
posts (to_session p packet ∷ more) = posts more
posts (to_terminal name packet ∷ more) = (name, packet) ∷ posts more

abbrev pub answers : List Event → List (ℕ × Packet)
answers [] = []
answers (to_session p packet ∷ more) = (p, packet) ∷ answers more
answers (to_terminal name packet ∷ more) = answers more

-- The three servers, what the login server told its sessions, and the packets on their way.
pub record Net (R C : Type 0) : Type 0 where
  pub login : World Login
  pub chatting : World Lobby
  pub agent : World (DbAgent R C)
  pub told : List (ℕ × Packet)
  pub pending : List (ServerName × Packet)

abbrev pub net :
    {R C : Type 0}
    → World Login
    → World Lobby
    → World (DbAgent R C)
    → List (ℕ × Packet)
    → List (ServerName × Packet)
    → Net R C
net l c a told pending = record {
  login = l;
  chatting = c;
  agent = a;
  told = told;
  pending = pending;
}

module _ {R C : Type 0} (ado : Platform R C) (a2w w2a : List ℕ → List ℕ) (leftover fuel : ℕ)
    (bring : ServerName → ℕ) where
  -- A packet of a session of the login server.
  unfoldable pub at_login : ℕ → Packet → Net R C → Option (Net R C)
  at_login p packet n = elim (run login_table p packet (record n.login { sent = [] })) [
    | none ↦ none
    | some (_, w) ↦ some (record n {
      login = w;
      told = n.told ++ answers w.sent;
      pending = n.pending ++ posts w.sent;
    })
  ]

  unfoldable pub at_chatting : ℕ → Packet → Net R C → Option (Net R C)
  at_chatting p packet n =
      elim (run (chatting_table a2w w2a) p packet (record n.chatting { sent = [] })) [
        | none ↦ none
        | some (_, w) ↦ some (record n { chatting = w; pending = n.pending ++ posts w.sent })
      ]

  unfoldable pub at_agent : ℕ → Packet → Net R C → Option (Net R C)
  at_agent p packet n =
      elim ((run (db_agent_table ado) p packet >> process ado leftover fuel 1)
        (record n.agent { sent = [] })) [
          | none ↦ none
          | some (_, w) ↦ some (record n { agent = w; pending = n.pending ++ posts w.sent })
        ]

  -- `bring` names the session over which a server gets packets of the others. The game server has no part
  -- in this.
  unfoldable pub arrive : ServerName → Packet → Net R C → Option (Net R C)
  unfolding at_login at_chatting at_agent
  arrive login_server packet n = at_login (bring login_server) packet n
  arrive chatting_server packet n = at_chatting (bring chatting_server) packet n
  arrive in_game_server packet n = none
  arrive db_agent packet n = at_agent (bring db_agent) packet n

  -- So many packets on their way arrive.
  unfoldable pub relay : ℕ → Net R C → Option (Net R C)
  unfolding arrive
  relay zero n = some n
  relay (suc rounds) n = elim n.pending [
    | [] ↦ some n
    | (name, packet) ∷ more ↦ elim (arrive name packet (record n { pending = more })) [
      | none ↦ none
      | some v ↦ relay rounds v
    ]
  ]

  -- A client sends its id and its password.
  unfoldable pub sign_in : ℕ → List ℕ → List ℕ → Net R C → Option (Net R C)
  unfolding relay
  sign_in p id password n = elim (at_login p (account (c_req_id_pw id password)) n) [
    | none ↦ none
    | some v ↦ relay 6 v
  ]
