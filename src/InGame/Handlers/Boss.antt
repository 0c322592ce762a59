-- ===== src/InGame/Handlers/Boss.antt =====
-- The end of a match: InGameServer/InGameProcess.cpp:300-341.
use graduation_server.Common.{
  ℕ, ◌%◌, ◌^◌, ◌<◌, ◌≡◌, refl, ◌∙◌, inl, inr, none, some, [], ◌∷◌, ◌++◌, arith, if◌then◌else◌,
  Bool-cases, find, erase, find-erase_self, find-erase-none,
}
use graduation_server.Sessions.{Session}
use graduation_server.World.{
  World, Terminal, to_session, to_terminal, chatting_server, deref, send_packet, send_to,
  get_terminal, the_terminal, terminal_send, get_own, set_own,
}
use graduation_server.Packet.{Packet, round}
use graduation_server.Packet.Round.{
  c_req_boss_explosion, s_ans_boss_explosion, i_initialize_roommember,
}
use graduation_server.InGame.{
  Room, Game, int_key, join, find_room, erase_room, find_sessions, delete_sessions, delete_room,
}
use graduation_server.InGame.Handlers.{c_req_boss_explosion_func, tell_both, over_in, game_over}
use graduation_server.InGame.Handlers.Match.{append_two}

-- The end of a match, for two sessions and a terminal that are there.
game_over_lem :
    (p q room_num : ℕ) (w : World Game) (s x : Session) (room : Room) (t : Terminal)
    → find p w.sessions.heap ≡ some s
    → find q w.sessions.heap ≡ some x
    → find room.user2_id w.own.simple_sessions ≡ some (some q)
    → w.terminals chatting_server ≡ some t
    → t.port < 2 ^ 32
    → (v : World Game) × (game_over p room_num room w ≡ some (tt, v))
      × (v.sent
          ≡ (if t.ready
              then w.sent
                ++ (to_terminal chatting_server (round (i_initialize_roommember room_num 0)) ∷ [])
              else w.sent)
            ++ (to_session p (round (s_ans_boss_explosion room_num t.ip t.port))
                ∷ (to_session q (round (s_ans_boss_explosion room_num t.ip t.port)) ∷ [])))
      × (v.own ≡ record {
        room_arr = erase (int_key room_num) w.own.room_arr;
        simple_sessions = erase room.user2_id (erase room.user1_id w.own.simple_sessions);
      })
unfolding game_over tell_both get_terminal terminal_send the_terminal send_packet send_to
    find_sessions join erase_room delete_room delete_sessions get_own set_own
game_over_lem p q room_num w s x room t f h j e l =
    let same : (t.port % 2 ^ 32) ≡ t.port = ground arith in
    let answer : Packet = round (s_ans_boss_explosion room_num t.ip t.port) in
    let told =
      if t.ready
      then w.sent ++ (to_terminal chatting_server (round (i_initialize_roommember room_num 0)) ∷ [])
      else w.sent in
    (
      record w {
        sent = told ++ (to_session p answer ∷ (to_session q answer ∷ []));
        own = record {
          room_arr = erase (int_key room_num) w.own.room_arr;
          simple_sessions = erase room.user2_id (erase room.user1_id w.own.simple_sessions);
        };
      },
      elim (Bool-cases t.ready) [
        | inl g ↦ ground (
          arith,
          e,
          g,
          same,
          j,
          f,
          h,
          append_two told (to_session p answer) (to_session q answer),
        )
        | inr g ↦ ground (
          arith,
          e,
          g,
          same,
          j,
          f,
          h,
          append_two told (to_session p answer) (to_session q answer),
        )
      ],
      refl,
      refl,
    )

over_in_first :
    (p room_num : ℕ) (w : World Game) (s : Session) (room : Room)
    → find p w.sessions.heap ≡ some s
    → s.id ≡ room.user1_id
    → over_in p room_num (some room) w ≡ game_over p room_num room w
unfolding over_in deref
over_in_first p room_num w s room f u = ground (arith, f, u)

-- When the first player of a room reports the end of the boss, the chatting server is told that the room has
-- no members if its terminal is ready, both players are told the address of the chatting server, the
-- reporting player first, and the room and the sessions of both players are forgotten. Both
-- sessions and the terminal of the chatting server have to be there, the second player has to be
-- registered, and the port has to fit 32 bits.
pub c_req_boss_explosion_lem :
    (p q room_num : ℕ) (w : World Game) (s x : Session) (room : Room) (t : Terminal)
    → find p w.sessions.heap ≡ some s
    → find q w.sessions.heap ≡ some x
    → find (int_key room_num) w.own.room_arr ≡ some room
    → s.id ≡ room.user1_id
    → find room.user2_id w.own.simple_sessions ≡ some (some q)
    → w.terminals chatting_server ≡ some t
    → t.port < 2 ^ 32
    → (v : World Game) × (c_req_boss_explosion_func p (round (c_req_boss_explosion room_num)) w
        ≡ some (tt, v))
      × (v.sent
          ≡ (if t.ready
              then w.sent
                ++ (to_terminal chatting_server (round (i_initialize_roommember room_num 0)) ∷ [])
              else w.sent)
            ++ (to_session p (round (s_ans_boss_explosion room_num t.ip t.port))
                ∷ (to_session q (round (s_ans_boss_explosion room_num t.ip t.port)) ∷ [])))
      × (find (int_key room_num) v.own.room_arr ≡ none)
      × (find room.user1_id v.own.simple_sessions ≡ none)
      × (find room.user2_id v.own.simple_sessions ≡ none)
unfolding c_req_boss_explosion_func find_room get_own
c_req_boss_explosion_lem p q room_num w s x room t f h r u j e l =
    let users = w.own.simple_sessions in
    let same : (t.port % 2 ^ 32) ≡ t.port = ground arith in
    let (v, ran, sent, own) = game_over_lem p q room_num w s x room t f h j e l in
    (
      v,
      rw r (over_in_first p room_num w s room f u ∙ ran),
      sent,
      ground (arith, own, find-erase_self (int_key room_num) w.own.room_arr),
      ground (
        arith,
        own,
        find-erase-none room.user1_id room.user2_id _ (find-erase_self room.user1_id users),
      ),
      ground (arith, own, find-erase_self room.user2_id (erase room.user1_id users)),
    )
