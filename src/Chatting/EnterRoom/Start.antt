-- ===== src/Chatting/EnterRoom/Start.antt =====
-- How a match starts in ChattingServer/ChattingProcess.cpp:193-250.
use graduation_server.Common.{
  ℕ, suc, ◌%◌, ◌^◌, ◌≡◌, refl, inl, inr, true, none, some, List, [], ◌∷◌, ◌++◌, append_assoc, arith,
  find, update,
}
use graduation_server.Sessions.{Session, SessionManager, contains}
use graduation_server.Sessions
use graduation_server.Sessions.Lookup.{IsValid, Rising-listed, session-Finds, search_list_listed}
use graduation_server.World.{
  World, Terminal, Event, to_session, deref, send_packet, send_to, the_terminal, session_by_id,
  get_own, set_own,
}
use graduation_server.Chatting.{LobbyRoom, Lobby, set_lobby_room}
use graduation_server.Chatting.EnterRoom.{
  id_of, notice_of, looked_up, notify_first, notify_second, notify_by, notify,
}

-- No session of a valid manager has the id 0.
no_zero : (m : SessionManager) → IsValid m → Sessions.session 0 m ≡ some none
no_zero m v = elim (session-Finds 0 m v) [
  | inl (e, _) ↦ e
  | inr (p, s, e, c, f, i) ↦
      absurd
        (omega (arith, i, Rising-listed m.heap m.session_seed 1 m.session_list p s v.ordered f c))
]

-- A listed session is found by its id.
listed_found :
    (p : ℕ) (s : Session) (m : SessionManager)
    → IsValid m
    → find p m.heap ≡ some s
    → contains p m.session_list ≡ true
    → Sessions.session s.id m ≡ some (some p)
unfolding Sessions.session
listed_found p s m v f c =
    search_list_listed m.heap m.session_seed 1 m.session_list p s v.ordered f c

-- The address of the game server, once for each pointer.
abbrev pub notices : Terminal → List ℕ → List Event
unfolding notice_of
notices t [] = []
notices t (p ∷ ps) = to_session p (notice_of t) ∷ notices t ps

-- The lobby with the room as given.
abbrev pub with_room : ℕ → LobbyRoom → Lobby → Lobby
with_room room_num room g = record g { room_array = update (room_num % 2 ^ 32) room g.room_array }

pub notify_last :
    (n b room_num : ℕ) (room : LobbyRoom) (t : Terminal) (w : World Lobby) (y : Session) (k : ℕ)
    → looked_up room.user1 ≡ k
    → Sessions.session k w.sessions ≡ some none
    → room.user2 ≡ some b
    → find b w.sessions.heap ≡ some y
    → notify (suc n) (some t) room_num room w
      ≡ some (
        record room { user2 = none },
        record w {
          sent = w.sent ++ notices t (b ∷ []);
          own = with_room room_num (record room { user2 = none }) w.own;
        },
      )
unfolding notify notify_by notify_second the_terminal send_to send_packet session_by_id
    set_lobby_room get_own set_own notices
notify_last n b room_num room t w y k u l e f = ground (arith, u, l, e, f)

-- The first user gets the address twice, by its pointer and by its id.
notify_first_lem :
    (a room_num : ℕ) (room : LobbyRoom) (t : Terminal) (w : World Lobby) (x : Session)
    → IsValid w.sessions
    → room.user1 ≡ some a
    → find a w.sessions.heap ≡ some x
    → contains a w.sessions.session_list ≡ true
    → notify_first (some t) room_num room w
      ≡ some (
        tt,
        record w {
          sent = w.sent ++ notices t (a ∷ a ∷ []);
          own = with_room room_num (record room { user1 = none }) w.own;
        },
      )
unfolding notify_first the_terminal send_to send_packet session_by_id set_lobby_room get_own set_own
    notices id_of deref
notify_first_lem a room_num room t w x v e f c = ground (
  arith,
  e,
  f,
  listed_found a x w.sessions v f c,
  append_assoc w.sent (to_session a (notice_of t) ∷ []) (to_session a (notice_of t) ∷ []),
)

pub notify_both :
    (a b room_num : ℕ) (room : LobbyRoom) (t : Terminal) (w : World Lobby) (x y : Session) (q : ℕ)
    → IsValid w.sessions
    → Sessions.session 1 w.sessions ≡ some (some q)
    → room.user1 ≡ some a
    → room.user2 ≡ some b
    → find a w.sessions.heap ≡ some x
    → contains a w.sessions.session_list ≡ true
    → find b w.sessions.heap ≡ some y
    → notify 2 (some t) room_num room w
      ≡ some (
        record room { user1 = none; user2 = none },
        record w {
          sent = w.sent ++ notices t (a ∷ a ∷ b ∷ []);
          own =
              with_room room_num
                (record room { user1 = none; user2 = none })
                (with_room room_num (record room { user1 = none }) w.own);
        },
      )
unfolding notify notify_by session_by_id looked_up notices
notify_both a b room_num room t w x y q v one e1 e2 f c g =
    let room1 : LobbyRoom = record room { user1 = none } in
    let w1 : World Lobby = record w {
      sent = w.sent ++ notices t (a ∷ a ∷ []);
      own = with_room room_num room1 w.own;
    } in
    ground (
      arith,
      one,
      e1,
      notify_first_lem a room_num room t w x v e1 f c,
      notify_last 0 b room_num room1 t w1 y 0 refl (no_zero w.sessions v) e2 g,
      append_assoc w.sent (notices t (a ∷ a ∷ [])) (notices t (b ∷ [])),
    )
