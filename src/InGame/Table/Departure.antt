-- ===== src/InGame/Table/Departure.antt =====
-- What the game server keeps of a player who left: InGameServer/InGameProcess.cpp:124-150.
use graduation_server.Common.{
  ℕ, ◌≡◌, ◌≢◌, refl, ◌∙◌, true, none, some, find, find-erase_self, find-erase_ne,
}
use graduation_server.Sessions.{Session, SessionManager, contains}
use graduation_server.Sessions.Closing.{without}
use graduation_server.World.{World}
use graduation_server.Packet.{account, battle}
use graduation_server.Packet.Account.{c_req_exit}
use graduation_server.Packet.Battle.{c_req_player_move}
use graduation_server.Contents.{run}
use graduation_server.Contents
use graduation_server.Contents.Dispatch.{closed}
use graduation_server.InGame.{Room, Game, int_key}
use graduation_server.InGame.Table.{in_game_table}
use graduation_server.InGame.Table.Dispatch.{handler, run-in_game_table}
use graduation_server.InGame.Handlers.Dangling.{move_dead}

-- The second player of a room who asks to exit is deleted and stays registered: the next move of the first
-- player makes the server use the deleted session.
pub player_move-exit :
    (arrive : ℕ → SessionManager → SessionManager) (p q room_num x y : ℕ) (room : Room)
    (w : World Game) (s t : Session)
    → find p w.sessions.heap ≡ some s
    → contains p w.sessions.session_list ≡ true
    → find room.user2_id w.own.simple_sessions ≡ some (some p)
    → find (int_key room_num) w.own.room_arr ≡ some room
    → p ≢ q
    → find q w.sessions.heap ≡ some t
    → room.user1_id ≡ t.id
    → (v : World Game) × (run (in_game_table arrive) p (account c_req_exit) w ≡ some (tt, v))
      × (v.own ≡ w.own)
      × (find p v.sessions.heap ≡ none)
      × (run (in_game_table arrive) q (battle (c_req_player_move room_num x y)) v ≡ none)
unfolding handler
player_move-exit arrive p q room_num x y room w s t here listed second there away alive mine =
    let v : World Game = record w { sessions = without p w.sessions } in
    (
      v,
      run-in_game_table arrive p (account c_req_exit) w
          ∙ (unfold Contents.c_req_exit in closed p w s here listed),
      refl,
      find-erase_self p w.sessions.heap,
      run-in_game_table arrive q (battle (c_req_player_move room_num x y)) v
          ∙ move_dead p q room_num x y room v t there
              (find-erase_ne p q w.sessions.heap away ∙ alive) mine second
              (find-erase_self p w.sessions.heap),
    )
