-- ===== src/Chatting/EnterRoom/Match.antt =====
-- The match that starts when a room of the chatting server is full:
-- ChattingServer/ChattingProcess.cpp:159-252.
use graduation_server.Common.{
  ℕ, ◌%◌, ◌^◌, ◌≡◌, refl, sym, ap, ◌∙◌, inl, inr, true, false, none, some, List, [], ◌∷◌, ◌++◌,
  append-nil, arith, if◌then◌else◌, Bool-cases, Option-cases, find, update, erase, find-update_self,
  find-erase_self, find-erase-none,
}
use graduation_server.Sessions.{Session, SessionManager, contains}
use graduation_server.Sessions
use graduation_server.Sessions.Lookup.{IsValid}
use graduation_server.World.{
  World, Terminal, Event, to_terminal, deref, get_terminal, terminal_send, get_own, set_own,
  in_game_server,
}
use graduation_server.Stream.{size_of_int32}
use graduation_server.Packet.{lobby, battle}
use graduation_server.Packet.Lobby.{c_req_enter_room, s_ans_enter_room}
use graduation_server.Packet.Battle.{i_user_info}
use graduation_server.Chatting.{
  LobbyRoom, Lobby, is_full, lobby_room, set_lobby_room, delete_stored, broadcast,
}
use graduation_server.Chatting.EnterRoom.{
  seat, id_of, looked_up, notify, start, enter, c_req_enter_room_func,
}
use graduation_server.Chatting.EnterRoom.Start.{notices, with_room, notify_last, notify_both}

-- What the game server is told, if its terminal is ready.
abbrev pub game_told : Terminal → ℕ → ℕ → ℕ → List Event
game_told t room_num id1 id2 =
    if t.ready then to_terminal in_game_server (battle (i_user_info room_num id1 id2)) ∷ [] else []

-- The lobby after the start: the room has no users, its count of members is what it was, and both users
-- are out of the lobby.
abbrev pub Started : ℕ → LobbyRoom → ℕ → ℕ → Lobby → Type 0
Started room_num room id1 id2 g =
    (find (room_num % 2 ^ 32) g.room_array ≡ some (record room { user1 = none; user2 = none }))
    × (find id1 g.session_storage ≡ none)
    × (find id2 g.session_storage ≡ none)

start_by :
    (a b room_num : ℕ) (room told old : LobbyRoom) (t : Terminal) (w : World Lobby) (x y : Session)
    (g : Lobby) (events : List Event)
    → room.user1 ≡ some a
    → room.user2 ≡ some b
    → find a w.sessions.heap ≡ some x
    → find b w.sessions.heap ≡ some y
    → w.terminals in_game_server ≡ some t
    → notify 2 (some t) room_num room w ≡ some (told, record w { sent = w.sent ++ events; own = g })
    → find (room_num % 2 ^ 32) g.room_array ≡ some old
    → record told { user1 = none } ≡ record room { user1 = none; user2 = none }
    → (v : World Lobby) × (start room_num room w ≡ some (tt, v))
      × (v.sent ≡ (w.sent ++ events) ++ game_told t room_num x.id y.id)
      × Started room_num room x.id y.id v.own
unfolding start id_of deref get_terminal terminal_send set_lobby_room delete_stored get_own set_own
start_by a b room_num room told old t w x y g events e1 e2 f h e n r same =
    let last : LobbyRoom = record told { user1 = none } in
    (
      record w {
        sent = (w.sent ++ events) ++ game_told t room_num x.id y.id;
        own = record g {
          room_array = update (room_num % 2 ^ 32) last g.room_array;
          session_storage = erase y.id (erase x.id g.session_storage);
        };
      },
      elim (Bool-cases t.ready) [
        | inl z ↦ ground (arith, e, e1, e2, f, h, n, z)
        | inr z ↦ ground (arith, e, e1, e2, f, h, n, z, append-nil (w.sent ++ events))
      ],
      refl,
      (
        find-update_self (room_num % 2 ^ 32) last old g.room_array r ∙ ap some same,
        find-erase-none x.id y.id _ (find-erase_self x.id g.session_storage),
        find-erase_self y.id (erase x.id g.session_storage),
      ),
    )

-- The start of a match for two live users of a room that is there, while a session with the id 1 is
-- listed: the first user gets the address of the game server twice, the second once, the game
-- server gets the ids of both if its terminal is ready, both users are out of the lobby, and the room has
-- no users any more but the count of members that it had. The sessions are valid, the first user's session is listed, and the game server
-- has a terminal.
pub start_both :
    (a b room_num : ℕ) (room old : LobbyRoom) (t : Terminal) (w : World Lobby) (x y : Session)
    (q : ℕ)
    → IsValid w.sessions
    → Sessions.session 1 w.sessions ≡ some (some q)
    → room.user1 ≡ some a
    → room.user2 ≡ some b
    → find a w.sessions.heap ≡ some x
    → contains a w.sessions.session_list ≡ true
    → find b w.sessions.heap ≡ some y
    → w.terminals in_game_server ≡ some t
    → find (room_num % 2 ^ 32) w.own.room_array ≡ some old
    → (v : World Lobby) × (start room_num room w ≡ some (tt, v))
      × (v.sent ≡ (w.sent ++ notices t (a ∷ a ∷ b ∷ [])) ++ game_told t room_num x.id y.id)
      × Started room_num room x.id y.id v.own
start_both a b room_num room old t w x y q v one e1 e2 f c h e r =
    let room1 : LobbyRoom = record room { user1 = none } in
    start_by a b room_num room _ _ t w x y _ _ e1 e2 f h e
      (notify_both a b room_num room t w x y q v one e1 e2 f c h)
      (find-update_self (room_num % 2 ^ 32) _ room1 _
        (find-update_self (room_num % 2 ^ 32) room1 old w.own.room_array r))
      refl

-- The start of a match while no session has the id 1: only the second user gets the address of the game
-- server, although the game server gets the ids of both, if its terminal is ready. The room has
-- no users any more but the count of members that it had, and both users are out of the lobby. Both users are alive, the room is there, and the
-- game server has a terminal.
pub start_second :
    (a b room_num : ℕ) (room old : LobbyRoom) (t : Terminal) (w : World Lobby) (x y : Session)
    → Sessions.session 1 w.sessions ≡ some none
    → room.user1 ≡ some a
    → room.user2 ≡ some b
    → find a w.sessions.heap ≡ some x
    → find b w.sessions.heap ≡ some y
    → w.terminals in_game_server ≡ some t
    → find (room_num % 2 ^ 32) w.own.room_array ≡ some old
    → (v : World Lobby) × (start room_num room w ≡ some (tt, v))
      × (v.sent ≡ (w.sent ++ notices t (b ∷ [])) ++ game_told t room_num x.id y.id)
      × Started room_num room x.id y.id v.own
unfolding looked_up
start_second a b room_num room old t w x y one e1 e2 f h e r =
    start_by a b room_num room _ _ t w x y _ _ e1 e2 f h e
      (notify_last 1 b room_num room t w y 1 (rw e1 refl) one e2 h)
      (find-update_self (room_num % 2 ^ 32) _ old w.own.room_array r) refl

-- A room without a second user cannot start.
start_null :
    (room_num : ℕ) (room : LobbyRoom) (w : World Lobby)
    → room.user2 ≡ none
    → start room_num room w ≡ none
unfolding start id_of get_terminal
start_null room_num room w e = elim (Option-cases (id_of room.user1 w)) [
  | inl fault1 ↦ ground (arith, fault1)
  | inr ((id1, v), found) ↦ ground (arith, found, e)
]

enter_claimed :
    (p c room_num : ℕ) (w : World Lobby)
    → enter p 2 room_num (record { current_member = c; user1 = none; user2 = none }) w ≡ none
unfolding enter seat set_lobby_room get_own set_own size_of_int32
enter_claimed p c room_num w =
    let entered : LobbyRoom = record { current_member = 2; user1 = some p; user2 = none } in
    let g : Lobby = with_room room_num entered w.own in
    let w1 : World Lobby = record w { own = g } in
    elim (Option-cases (broadcast (lobby (s_ans_enter_room 2 room_num)) g.session_storage w1)) [
      | inl gone ↦ ground (arith, gone)
      | inr ((u, v), heard) ↦ ground (arith, heard, start_null room_num entered v refl)
    ]

-- A client that claims to be the second to enter a room that is there, is not full and has no users
-- makes the server use a null pointer.
pub c_req_enter_room_claimed :
    (p room_num : ℕ) (room : LobbyRoom) (w : World Lobby)
    → find (room_num % 2 ^ 32) w.own.room_array ≡ some room
    → room.user1 ≡ none
    → room.user2 ≡ none
    → is_full room ≡ false
    → c_req_enter_room_func p (lobby (c_req_enter_room 1 room_num)) w ≡ none
unfolding c_req_enter_room_func lobby_room
c_req_enter_room_claimed p room_num room w r e1 e2 e =
    let same : room ≡ record { current_member = room.current_member; user1 = none; user2 = none } =
      rw (e1, e2) refl in
    ground (arith, r, e, rw (sym same) at (enter_claimed p room.current_member room_num w))
