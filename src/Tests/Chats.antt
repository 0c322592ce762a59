-- ===== src/Tests/Chats.antt =====
-- Runs of the chatting server with one room: users at 100 and 200.
use graduation_server.Common.{
  ℕ, ◌%◌, ◌^◌, ◌≡◌, ◌↔◌, refl, inl, false, Option, none, some, List, [], ◌∷◌, ◌++◌, arith, find,
}
use graduation_server.Sessions.{Session, SessionManager}
use graduation_server.Sessions
use graduation_server.World.{
  World, Terminal, ServerName, login_server, chatting_server, in_game_server, db_agent,
}
use graduation_server.Packet.{account, lobby}
use graduation_server.Packet.Account.{c_req_exit}
use graduation_server.Packet.Lobby.{c_req_chatting, s_ans_chatting}
use graduation_server.Contents.{run}
use graduation_server.Chatting.{User, LobbyRoom, Lobby, is_full}
use graduation_server.Chatting.Handlers.{c_req_chatting_func}
use graduation_server.Chatting.Handlers.Broadcast.{AreAlive, to_all, c_req_chatting_lem}
use graduation_server.Chatting.Stored.{IsOrdered, Hears}
use graduation_server.Chatting.Handlers.Dangling.{chatting-exit}
use graduation_server.Chatting.EnterRoom.{start}
use graduation_server.Chatting.EnterRoom.Start.{notices}
use graduation_server.Chatting.EnterRoom.Match.{game_told, Started, start_both}
use graduation_server.Chatting.Table.{chatting_table}
use graduation_server.Tests.SessionList.{
  server_session, client_session, two_sessions, two_sessions-IsValid, alive, listed,
}
use graduation_server.Tests.Servers.{chatting_terminal}

-- A name is carried to wide characters and back without loss.
abbrev same_name : List ℕ → List ℕ
same_name name = name

abbrev game_terminals : ServerName → Option Terminal
game_terminals login_server = none
game_terminals chatting_server = none
game_terminals in_game_server = some chatting_terminal
game_terminals db_agent = none

abbrev empty_room : LobbyRoom
empty_room = record { current_member = 0; user1 = none; user2 = none }

abbrev full_room : LobbyRoom
full_room = record { current_member = 2; user1 = some 100; user2 = some 200 }

abbrev one_user : User
one_user = record { session = 200; name = 98 ∷ [] }

abbrev lobby_of : LobbyRoom → Lobby
lobby_of room = record {
  user_pool = (2, one_user) ∷ [];
  session_storage = (1, 100) ∷ (2, 200) ∷ [];
  room_array = (0, room) ∷ [];
}

abbrev chat_world : SessionManager → LobbyRoom → World Lobby
chat_world m room = record {
  sessions = m;
  terminals = game_terminals;
  now = 8;
  sent = [];
  own = lobby_of room;
}

in_lobby : AreAlive (two_sessions 9).heap (lobby_of empty_room).session_storage
in_lobby = ((server_session, alive.0), ((client_session, alive.1), tt))

registered : find 2 (lobby_of empty_room).user_pool ≡ some one_user
unfolding find
registered = refl

unregistered : find 1 (lobby_of empty_room).user_pool ≡ none
unfolding find
unregistered = refl

room_there : (room : LobbyRoom) → find (0 % 2 ^ 32) (lobby_of room).room_array ≡ some room
unfolding find
room_there room = refl

lobby_of-IsOrdered : IsOrdered 0 (lobby_of empty_room).session_storage
lobby_of-IsOrdered = (omega arith, (omega arith, tt))

c_req_chatting_lem_example :
    (who : List (ℕ × ℕ)) × (c_req_chatting_func same_name same_name 200
        (lobby (c_req_chatting (104 ∷ [])))
        (chat_world (two_sessions 9) empty_room)
      ≡ some (
        tt,
        record (chat_world (two_sessions 9) empty_room) {
          sent = to_all (lobby (s_ans_chatting (98 ∷ []) (104 ∷ []))) who;
        },
      ))
    × IsOrdered 0 who
    × ((id q : ℕ)
        → (find id who ≡ some q)
          ↔ ((find id ((1, 100) ∷ (2, 200) ∷ []) ≡ some q) × Hears (two_sessions 9).heap q))
c_req_chatting_lem_example =
    c_req_chatting_lem same_name same_name 200 (104 ∷ []) (chat_world (two_sessions 9) empty_room)
      client_session one_user alive.1 registered in_lobby lobby_of-IsOrdered

id_one : Sessions.session 1 (two_sessions 9) ≡ some (some 100)
unfolding Sessions.session Sessions.search_list find
id_one = refl

start_both_example :
    (v : World Lobby) × (start 0 full_room (chat_world (two_sessions 9) full_room) ≡ some (tt, v))
    × (v.sent
        ≡ ([] ++ notices chatting_terminal (100 ∷ 100 ∷ 200 ∷ []))
          ++ game_told chatting_terminal 0 1 2)
    × Started 0 full_room 1 2 v.own
start_both_example =
    start_both 100 200 0 full_room full_room chatting_terminal
      (chat_world (two_sessions 9) full_room) server_session client_session 100
      (two_sessions-IsValid 9) id_one refl refl alive.0 listed.0 alive.1 refl (room_there full_room)

-- The session with the id 1 has gone from the list.
abbrev without_one : SessionManager
without_one = record (two_sessions 9) { session_list = 200 ∷ []; session_count = 1 }

no_id_one : Sessions.session 1 without_one ≡ some none
unfolding Sessions.session Sessions.search_list find
no_id_one = refl

not_full : is_full empty_room ≡ false
unfolding is_full
not_full = refl

-- The session at 100 leaves, and the one at 200 says something.
chatting-exit_example :
    (v : World Lobby) × (run
        (chatting_table same_name same_name)
        100
        (account c_req_exit)
        (chat_world (two_sessions 9) empty_room)
      ≡ some (tt, v))
    × (v.own ≡ lobby_of empty_room)
    × (find 100 v.sessions.heap ≡ none)
    × (run (chatting_table same_name same_name) 200 (lobby (c_req_chatting (104 ∷ []))) v ≡ none)
chatting-exit_example =
    chatting-exit same_name same_name 100 200 (104 ∷ []) (chat_world (two_sessions 9) empty_room)
      server_session client_session one_user alive.0 listed.0 (inl refl) (λ e. omega (arith, e))
      alive.1 registered
