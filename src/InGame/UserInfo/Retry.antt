-- ===== src/InGame/UserInfo/Retry.antt =====
-- What the loop of InGameServer/InGameProcess.cpp:64-101 can find: only what its first round finds.
use graduation_server.Common.{
  ℕ, zero, suc, ◌≡◌, ◌≢◌, refl, sym, ◌∙◌, ◌⊎◌, Option, none, some, [], ◌∷◌, ◌++◌, arith,
  if◌then◌else◌, find, insert, erase, find-insert_self, find-insert_ne, find-erase_self,
  find-erase-none,
}
use graduation_server.Sessions.{SessionManager}
use graduation_server.Sessions
use graduation_server.Sessions.Lookup.{IsValid}
use graduation_server.World.{
  World, Action, Terminal, to_terminal, chatting_server, ◌>>=◌, get_terminal, terminal_send,
  get_own, set_own,
}
use graduation_server.Packet.{battle, round}
use graduation_server.Packet.Battle.{i_user_info}
use graduation_server.Packet.Round.{i_initialize_roommember}
use graduation_server.InGame.{Room, Game, int_key, insert_user_info, erase_room, delete_room}
use graduation_server.InGame.UserInfo.{give_up, proceed, others, wait_users, i_user_info_func}
use graduation_server.InGame.UserInfo.Rounds.{find_users_again, find_users_first}

-- The end of a match that never began.
abbrev pub GivenUp : ℕ → Room → Terminal → World Game → World Game → Type 0
GivenUp room_num room t w v =
    (v.sent ≡ (
      if t.ready
      then w.sent ++ (to_terminal chatting_server (round (i_initialize_roommember room_num 0)) ∷ [])
      else w.sent))
    × (find (int_key room_num) v.own.room_arr ≡ none)
    × (find room.user1_id v.own.simple_sessions ≡ none)
    × (find room.user2_id v.own.simple_sessions ≡ none)

give_up_lem :
    (room_num : ℕ) (room : Room) (t : Terminal) (w : World Game)
    → w.terminals chatting_server ≡ some t
    → (v : World Game) × (give_up room_num room w ≡ some (tt, v)) × GivenUp room_num room t w v
unfolding give_up get_terminal terminal_send erase_room delete_room get_own set_own
give_up_lem room_num room t w e =
    let users = w.own.simple_sessions in
    (
      record w {
        sent =
            if t.ready
            then w.sent
              ++ (to_terminal chatting_server (round (i_initialize_roommember room_num 0)) ∷ [])
            else w.sent;
        own = record {
          room_arr = erase (int_key room_num) w.own.room_arr;
          simple_sessions = erase room.user2_id (erase room.user1_id users);
        };
      },
      ground (arith, e),
      (
        refl,
        find-erase_self (int_key room_num) w.own.room_arr,
        find-erase-none room.user1_id room.user2_id _ (find-erase_self room.user1_id users),
        find-erase_self room.user2_id (erase room.user1_id users),
      ),
    )

proceed_null :
    (room_num : ℕ) (r q : Option ℕ) (again : Action Game (Unit {0}))
    → (r ≡ none) ⊎ (q ≡ none)
    → proceed room_num r q again ≡ again
unfolding proceed
proceed_null room_num none q again h = refl
proceed_null room_num (some p) none again h = refl
proceed_null room_num (some p) (some x) again h = absurd (ground arith)

module _ (arrive : ℕ → SessionManager → SessionManager)
    (keeps : (n : ℕ) (m : SessionManager) → IsValid m → IsValid (arrive n m)) where
  -- With a null pointer registered every further round fails, whatever happens to the sessions.
  wait_users_again :
      (n room_num : ℕ) (room : Room) (t : Terminal) (w : World Game) (r q : Option ℕ)
      → IsValid w.sessions
      → w.terminals chatting_server ≡ some t
      → find room.user1_id w.own.simple_sessions ≡ some r
      → find room.user2_id w.own.simple_sessions ≡ some q
      → (r ≡ none) ⊎ (q ≡ none)
      → (v : World Game) × (wait_users arrive n room_num room w ≡ some (tt, v))
        × GivenUp room_num room t w v
  unfolding wait_users others
  wait_users_again zero room_num room t w r q i e f1 f2 null = give_up_lem room_num room t w e
  wait_users_again (suc n) room_num room t w r q i e f1 f2 null =
      let w1 : World Game = record w { sessions = arrive n w.sessions } in
      let valid = keeps n w.sessions i in
      let (v, ran, facts) = wait_users_again n room_num room t w1 r q valid e f1 f2 null in
      (
        v,
        rw (find_users_again room w1 r q valid f1 f2, ◌>>=◌)
            (rw (proceed_null room_num r q (wait_users arrive n room_num room) null) ran),
        facts,
      )

  wait_users_first :
      (n room_num : ℕ) (room : Room) (t : Terminal) (w : World Game) (r q : Option ℕ)
      → IsValid w.sessions
      → w.terminals chatting_server ≡ some t
      → room.user1_id ≢ room.user2_id
      → find room.user1_id w.own.simple_sessions ≡ none
      → find room.user2_id w.own.simple_sessions ≡ none
      → Sessions.session room.user1_id (arrive n w.sessions) ≡ some r
      → Sessions.session room.user2_id (arrive n w.sessions) ≡ some q
      → (r ≡ none) ⊎ (q ≡ none)
      → (v : World Game) × (wait_users arrive (suc n) room_num room w ≡ some (tt, v))
        × GivenUp room_num room t w v
  unfolding wait_users others
  wait_users_first n room_num room t w r q i e d f1 f2 s1 s2 null =
      let users = w.own.simple_sessions in
      let users1 = insert room.user1_id r users in
      let w1 : World Game = record w { sessions = arrive n w.sessions } in
      let w2 : World Game = record w1 {
        own = record w.own { simple_sessions = insert room.user2_id q users1 };
      } in
      let g1 =
        find-insert_ne room.user2_id room.user1_id q users1 (λ x. d (sym x))
        ∙ find-insert_self room.user1_id r users f1 in
      let g2 =
        find-insert_self room.user2_id q users1
          (find-insert_ne room.user1_id room.user2_id r users d ∙ f2) in
      let (v, ran, facts) =
        wait_users_again n room_num room t w2 r q (keeps n w.sessions i) e g1 g2 null in
      (
        v,
        rw (find_users_first room w1 r q d f1 f2 s1 s2, ◌>>=◌)
            (rw (proceed_null room_num r q (wait_users arrive n room_num room) null) ran),
        facts,
      )

  -- If one of two different users, both new to the server, has no session at the first of the
  -- three rounds, the match is given up, even if that session arrives in time for a later round:
  -- the null pointer that the first round registered stays. The chatting server is told to empty
  -- the room if its terminal is ready, and the room and both users are forgotten. The sessions
  -- are valid, other threads keep them so, and the chatting server has a terminal.
  pub i_user_info_gives_up :
      (p room_num id1 id2 : ℕ) (t : Terminal) (w : World Game) (r q : Option ℕ)
      → IsValid w.sessions
      → w.terminals chatting_server ≡ some t
      → id1 ≢ id2
      → find id1 w.own.simple_sessions ≡ none
      → find id2 w.own.simple_sessions ≡ none
      → Sessions.session id1 (arrive 2 w.sessions) ≡ some r
      → Sessions.session id2 (arrive 2 w.sessions) ≡ some q
      → (r ≡ none) ⊎ (q ≡ none)
      → (v : World Game) × (i_user_info_func arrive p (battle (i_user_info room_num id1 id2)) w
          ≡ some (tt, v))
        × GivenUp room_num
            (record { user1_id = id1; user2_id = id2; total_exploded_enemy = 0 })
            t
            w
            v
  unfolding i_user_info_func insert_user_info get_own set_own
  i_user_info_gives_up p room_num id1 id2 t w r q i e d f1 f2 s1 s2 null =
      let room : Room = record { user1_id = id1; user2_id = id2; total_exploded_enemy = 0 } in
      let w1 : World Game = record w {
        own = record w.own { room_arr = insert (int_key room_num) room w.own.room_arr };
      } in
      wait_users_first 2 room_num room t w1 r q i e d f1 f2 s1 s2 null
