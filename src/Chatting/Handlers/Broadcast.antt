-- ===== src/Chatting/Handlers/Broadcast.antt =====
-- Who hears whom in the lobby: ChattingServer/ChattingProcess.cpp:68-120.
use graduation_server.Common.{
  ℕ, ◌≡◌, ◌↔◌, inl, inr, none, some, List, [], ◌∷◌, ◌++◌, append-nil, append_assoc, arith, ◌==◌,
  Bool-cases, find, insert, find-insert_self,
}
use graduation_server.Sessions.{Session}
use graduation_server.World.{World, Event, to_session, deref, send_packet, get_own, set_own}
use graduation_server.Packet.{Packet, lobby}
use graduation_server.Packet.Lobby.{c_req_regist_chatting_name, c_req_chatting, s_ans_chatting}
use graduation_server.Chatting.{User, Lobby, user_at, insert_user, broadcast}
use graduation_server.Chatting.Stored.{IsOrdered, Hears, heard, heard-IsOrdered, find-heard}
use graduation_server.Chatting.Handlers.{
  regist, c_req_regist_chatting_name_func, chat, c_req_chatting_func,
}

-- The session of every entry is alive.
abbrev pub AreAlive : List (ℕ × Session) → List (ℕ × ℕ) → Type 0
AreAlive heap [] = Unit {0}
AreAlive heap ((id, p) ∷ more) = ((s : Session) × (find p heap ≡ some s)) × AreAlive heap more

-- The packet for the session of each entry.
abbrev pub to_all : Packet → List (ℕ × ℕ) → List Event
to_all packet [] = []
to_all packet ((id, p) ∷ more) = to_session p packet ∷ to_all packet more

pub broadcast_lem :
    (packet : Packet) (stored : List (ℕ × ℕ)) (w : World Lobby)
    → AreAlive w.sessions.heap stored
    → broadcast packet stored w
      ≡ some (tt, record w { sent = w.sent ++ to_all packet (heard w.sessions.heap stored) })
unfolding broadcast heard deref send_packet
broadcast_lem packet [] w alive = ground (arith, append-nil w.sent)
broadcast_lem packet ((id, p) ∷ more) w ((s, f), alive) = elim (Bool-cases (s.socket == 0)) [
  | inl shut ↦ ground (arith, f, shut, broadcast_lem packet more w alive)
  | inr open_socket ↦
      let w1 : World Lobby = record w { sent = w.sent ++ (to_session p packet ∷ []) } in
      ground (
        arith,
        f,
        open_socket,
        broadcast_lem packet more w1 alive,
        append_assoc w.sent (to_session p packet ∷ []) (to_all packet (heard w.sessions.heap more)),
      )
]

module _ (a2w w2a : List ℕ → List ℕ) where
  chats :
      (p : ℕ) (text : List ℕ) (w : World Lobby) (s : Session) (user : User)
      → find p w.sessions.heap ≡ some s
      → find s.id w.own.user_pool ≡ some user
      → AreAlive w.sessions.heap w.own.session_storage
      → c_req_chatting_func a2w w2a p (lobby (c_req_chatting text)) w
        ≡ some (
          tt,
          record w {
            sent =
                w.sent
                ++ to_all
                    (lobby (s_ans_chatting (w2a user.name) text))
                    (heard w.sessions.heap w.own.session_storage);
          },
        )
  unfolding c_req_chatting_func chat user_at get_own deref
  chats p text w s user f u alive = ground (
    arith,
    f,
    u,
    broadcast_lem (lobby (s_ans_chatting (w2a user.name) text)) w.own.session_storage w alive,
  )

  -- A text of a registered user goes, under the user's name, to the sessions of a list whose ids rise, so
  -- that no id is twice in it, and to nobody else. The list has just the sessions in the lobby that have a
  -- socket. The sender's session and all sessions in the lobby are alive, and the lobby is in the order of
  -- its ids.
  pub c_req_chatting_lem :
      (p : ℕ) (text : List ℕ) (w : World Lobby) (s : Session) (user : User)
      → find p w.sessions.heap ≡ some s
      → find s.id w.own.user_pool ≡ some user
      → AreAlive w.sessions.heap w.own.session_storage
      → IsOrdered 0 w.own.session_storage
      → (who : List (ℕ × ℕ)) × (c_req_chatting_func a2w w2a p (lobby (c_req_chatting text)) w
          ≡ some (
            tt,
            record w { sent = w.sent ++ to_all (lobby (s_ans_chatting (w2a user.name) text)) who },
          ))
        × IsOrdered 0 who
        × ((id q : ℕ)
            → (find id who ≡ some q)
              ↔ ((find id w.own.session_storage ≡ some q) × Hears w.sessions.heap q))
  c_req_chatting_lem p text w s user f u alive ordered = (
    heard w.sessions.heap w.own.session_storage,
    chats p text w s user f u alive,
    heard-IsOrdered w.sessions.heap 0 w.own.session_storage ordered,
    λ id q. find-heard w.sessions.heap 0 id q w.own.session_storage ordered,
  )

  -- A session that has no user yet registers a name, and what it says after that goes to the lobby under
  -- this name, carried to wide characters and back. Its session and all sessions in the lobby are
  -- alive.
  pub chatting-regist :
      (p : ℕ) (name text : List ℕ) (w : World Lobby) (s : Session)
      → find p w.sessions.heap ≡ some s
      → find s.id w.own.user_pool ≡ none
      → AreAlive w.sessions.heap w.own.session_storage
      → (v : World Lobby) × (c_req_regist_chatting_name_func a2w w2a p
            (lobby (c_req_regist_chatting_name name))
            w
          ≡ some (tt, v))
        × (c_req_chatting_func a2w w2a p (lobby (c_req_chatting text)) v
            ≡ some (
              tt,
              record v {
                sent =
                    w.sent
                    ++ to_all
                        (lobby (s_ans_chatting (w2a (a2w name)) text))
                        (heard w.sessions.heap w.own.session_storage);
              },
            ))
  unfolding c_req_regist_chatting_name_func regist user_at insert_user get_own set_own deref
  chatting-regist p name text w s f u alive =
      let user : User = record { session = p; name = a2w name } in
      let v : World Lobby = record w {
        own = record w.own { user_pool = insert s.id user w.own.user_pool };
      } in
      (
        v,
        ground (arith, f, u),
        chats p text v s user f (find-insert_self s.id user w.own.user_pool u) alive,
      )
