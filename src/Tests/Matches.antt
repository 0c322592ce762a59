-- ===== src/Tests/Matches.antt =====
-- Runs of the game server: the match of users 1 and 2 in room 6, whose sessions are at 100 and 200.
use graduation_server.Common.{
  ℕ, ◌≡◌, refl, arith, inl, inr, none, some, [], ◌∷◌, ◌++◌, find, if◌then◌else◌, Bool-cases, ◌==◌,
}
use graduation_server.Sessions.{Session, SessionManager}
use graduation_server.Sessions
use graduation_server.Sessions.Lookup.{IsValid}
use graduation_server.World.{World, to_session, to_terminal, chatting_server}
use graduation_server.Packet.{account, battle, round}
use graduation_server.Packet.Account.{c_req_exit}
use graduation_server.Packet.Battle.{i_user_info, c_req_player_move}
use graduation_server.Packet.Round.{
  c_req_boss_explosion, s_ans_boss_explosion, i_initialize_roommember, s_req_on_game,
}
use graduation_server.Contents.{run}
use graduation_server.InGame.{Room, Game, int_key}
use graduation_server.InGame.UserInfo.{i_user_info_func}
use graduation_server.InGame.UserInfo.Retry.{GivenUp, i_user_info_gives_up}
use graduation_server.InGame.UserInfo.Begin.{i_user_info_begins}
use graduation_server.InGame.Table.{in_game_table}
use graduation_server.InGame.Table.Departure.{player_move-exit}
use graduation_server.InGame.Table.Dispatch.{handler, run-in_game_table}
use graduation_server.InGame.Handlers.{c_req_boss_explosion_func}
use graduation_server.InGame.Handlers.Relay.{IsAlive}
use graduation_server.InGame.Handlers.Boss.{c_req_boss_explosion_lem}
use graduation_server.Tests.SessionList.{
  server_session, client_session, two_sessions, two_sessions-IsValid, alive, listed,
}
use graduation_server.Tests.Servers.{chatting_terminal, terminals_of}

abbrev room_of : ℕ → Room
room_of total = record { user1_id = 1; user2_id = 2; total_exploded_enemy = total }

abbrev empty_game : Game
empty_game = record { room_arr = []; simple_sessions = [] }

abbrev running : Game
running = record {
  room_arr = (6, room_of 0) ∷ [];
  simple_sessions = (1, some 100) ∷ (2, some 200) ∷ [];
}

-- The second player has no session.
abbrev half : Game
half = record { room_arr = (6, room_of 0) ∷ []; simple_sessions = (1, some 100) ∷ [] }

abbrev world_of : Game → World Game
world_of g = record {
  sessions = two_sessions 9;
  terminals = terminals_of;
  now = 8;
  sent = [];
  own = g;
}

-- No other thread does anything.
abbrev pub still : ℕ → SessionManager → SessionManager
still n m = m

abbrev no_keeps : (n : ℕ) (m : SessionManager) → IsValid m → IsValid (still n m)
no_keeps n m v = v

in_room : find (int_key 6) running.room_arr ≡ some (room_of 0)
unfolding find
in_room = refl

in_half : find (int_key 6) half.room_arr ≡ some (room_of 0)
unfolding find
in_half = refl

-- The key that a user has decides which pointer is registered.
running-IsAlive : IsAlive (world_of running)
unfolding find
running-IsAlive key p e = elim (Bool-cases (1 == key)) [
  | inl first ↦ (server_session, ground (arith, first, e))
  | inr rest ↦ elim (Bool-cases (2 == key)) [
    | inl second ↦ (client_session, ground (arith, rest, second, e))
    | inr neither ↦ absurd (ground (arith, rest, neither, e))
  ]
]

looked :
    (Sessions.session 1 (two_sessions 9) ≡ some (some 100))
    × (Sessions.session 2 (two_sessions 9) ≡ some (some 200))
    × (Sessions.session 3 (two_sessions 9) ≡ some none)
unfolding Sessions.session Sessions.search_list find
looked = (refl, refl, refl)

run-in_game_table_example :
    run (in_game_table still) 100 (battle (c_req_player_move 6 3 4)) (world_of running)
    ≡ handler still
        (battle (c_req_player_move 6 3 4))
        100
        (battle (c_req_player_move 6 3 4))
        (world_of running)
run-in_game_table_example =
    run-in_game_table still 100 (battle (c_req_player_move 6 3 4)) (world_of running)

c_req_boss_explosion_lem_example :
    (v : World Game) × (c_req_boss_explosion_func 100
        (round (c_req_boss_explosion 6))
        (world_of running)
      ≡ some (tt, v))
    × (v.sent
        ≡ (if chatting_terminal.ready
            then [] ++ (to_terminal chatting_server (round (i_initialize_roommember 6 0)) ∷ [])
            else [])
          ++ (to_session 100 (round (s_ans_boss_explosion 6 (49 ∷ []) 9000))
              ∷ to_session 200 (round (s_ans_boss_explosion 6 (49 ∷ []) 9000))
              ∷ []))
    × (find (int_key 6) v.own.room_arr ≡ none)
    × (find 1 v.own.simple_sessions ≡ none)
    × (find 2 v.own.simple_sessions ≡ none)
unfolding find
c_req_boss_explosion_lem_example =
    c_req_boss_explosion_lem 100 200 6 (world_of running) server_session client_session (room_of 0)
      chatting_terminal alive.0 alive.1 in_room refl refl refl (ground arith)

-- User 3 has no session.
i_user_info_gives_up_example :
    (v : World Game) × (i_user_info_func still 100
        (battle (i_user_info 6 1 3))
        (world_of empty_game)
      ≡ some (tt, v))
    × GivenUp 6
        (record { user1_id = 1; user2_id = 3; total_exploded_enemy = 0 })
        chatting_terminal
        (world_of empty_game)
        v
unfolding find
i_user_info_gives_up_example =
    i_user_info_gives_up still no_keeps 100 6 1 3 chatting_terminal (world_of empty_game) (some 100)
      none (two_sessions-IsValid 9) refl (ground arith) refl refl looked.0 looked.2 (inr refl)

i_user_info_begins_example :
    (v : World Game) × (i_user_info_func still 100
        (battle (i_user_info 6 1 2))
        (world_of empty_game)
      ≡ some (tt, v))
    × (v.sent
        ≡ ([] ++ (to_session 100 (round (s_req_on_game 6)) ∷ []))
          ++ (to_session 200 (round (s_req_on_game 6)) ∷ []))
    × (find (int_key 6) v.own.room_arr ≡ some (room_of 0))
    × (find 1 v.own.simple_sessions ≡ some (some 100))
    × (find 2 v.own.simple_sessions ≡ some (some 200))
unfolding find
i_user_info_begins_example =
    i_user_info_begins still 100 6 1 2 100 200 (world_of empty_game) server_session client_session
      (ground arith) refl refl refl looked.0 looked.1 alive.0 alive.1

-- The second player leaves, and the first one moves.
player_move-exit_example :
    (v : World Game) × (run (in_game_table still) 200 (account c_req_exit) (world_of running)
      ≡ some (tt, v))
    × (v.own ≡ running)
    × (find 200 v.sessions.heap ≡ none)
    × (run (in_game_table still) 100 (battle (c_req_player_move 6 7 8)) v ≡ none)
unfolding find
player_move-exit_example =
    player_move-exit still 200 100 6 7 8 (room_of 0) (world_of running) client_session
      server_session alive.1 listed.1 refl refl (λ e. omega (arith, e)) alive.0 refl
