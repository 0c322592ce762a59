-- ===== src/InGame/UserInfo/Begin.antt =====
-- How InGameServer/InGameProcess.cpp:41-121 opens a match whose two users are connected.
use graduation_server.Common.{
  ℕ, ◌≡◌, ◌≢◌, refl, sym, ◌∙◌, none, some, [], ◌∷◌, ◌++◌, arith, find, insert, find-insert_self,
  find-insert_ne,
}
use graduation_server.Sessions.{SessionManager}
use graduation_server.Sessions
use graduation_server.World.{World, to_session, ◌>>=◌, get_own, set_own, send_packet}
use graduation_server.Packet.{battle, round}
use graduation_server.Packet.Battle.{i_user_info}
use graduation_server.Packet.Round.{s_req_on_game}
use graduation_server.InGame.{Room, Game, int_key, insert_user_info}
use graduation_server.InGame.UserInfo.{proceed, others, wait_users, i_user_info_func}
use graduation_server.InGame.UserInfo.Rounds.{find_users_first}

module _ (arrive : ℕ → SessionManager → SessionManager) where
  -- Two different users, both new to the server, who have live sessions at the first round are
  -- told to begin, the first user first, if their room number is not in use; the room is kept,
  -- and both are known by their sessions.
  pub i_user_info_begins :
      (p room_num id1 id2 a b : ℕ) (w : World Game) (x y : Sessions.Session)
      → id1 ≢ id2
      → find id1 w.own.simple_sessions ≡ none
      → find id2 w.own.simple_sessions ≡ none
      → find (int_key room_num) w.own.room_arr ≡ none
      → Sessions.session id1 (arrive 2 w.sessions) ≡ some (some a)
      → Sessions.session id2 (arrive 2 w.sessions) ≡ some (some b)
      → find a (arrive 2 w.sessions).heap ≡ some x
      → find b (arrive 2 w.sessions).heap ≡ some y
      → (v : World Game) × (i_user_info_func arrive p (battle (i_user_info room_num id1 id2)) w
          ≡ some (tt, v))
        × (v.sent
            ≡ (w.sent ++ (to_session a (round (s_req_on_game room_num)) ∷ []))
              ++ (to_session b (round (s_req_on_game room_num)) ∷ []))
        × (find (int_key room_num) v.own.room_arr
            ≡ some (record { user1_id = id1; user2_id = id2; total_exploded_enemy = 0 }))
        × (find id1 v.own.simple_sessions ≡ some (some a))
        × (find id2 v.own.simple_sessions ≡ some (some b))
  unfolding i_user_info_func insert_user_info get_own set_own wait_users others proceed send_packet
  i_user_info_begins p room_num id1 id2 a b w x y d f1 f2 f3 s1 s2 h1 h2 =
      let room : Room = record { user1_id = id1; user2_id = id2; total_exploded_enemy = 0 } in
      let users = w.own.simple_sessions in
      let users1 = insert id1 (some a) users in
      let rooms = insert (int_key room_num) room w.own.room_arr in
      let w1 : World Game = record w {
        sessions = arrive 2 w.sessions;
        own = record w.own { room_arr = rooms };
      } in
      (
        record w1 {
          sent =
              (w.sent ++ (to_session a (round (s_req_on_game room_num)) ∷ []))
              ++ (to_session b (round (s_req_on_game room_num)) ∷ []);
          own = record { room_arr = rooms; simple_sessions = insert id2 (some b) users1 };
        },
        rw (find_users_first room w1 (some a) (some b) d f1 f2 s1 s2, ◌>>=◌)
            (ground (arith, h1, h2)),
        refl,
        find-insert_self (int_key room_num) room w.own.room_arr f3,
        find-insert_ne id2 id1 (some b) users1 (λ e. d (sym e))
            ∙ find-insert_self id1 (some a) users f1,
        find-insert_self id2 (some b) users1 (find-insert_ne id1 id2 (some a) users d ∙ f2),
      )
