-- ===== src/Chatting/Handlers/Dangling.antt =====
-- What the lobby keeps of a client that left: ChattingServer/ChattingProcess.cpp:88-138 and 140-157.
use graduation_server.Common.{
  ℕ, ◌≡◌, ◌≢◌, ◌⊎◌, inl, inr, refl, sym, ap, ◌∙◌, Bool-cases, Option-cases, true, none, some, List,
  [], ◌∷◌, ◌++◌, arith, ◌==◌, find, find-erase_self, find-erase_ne,
}
use graduation_server.Sessions.{Session, contains}
use graduation_server.Sessions.Closing.{without}
use graduation_server.World.{World, deref, send_packet, get_own, to_session}
use graduation_server.Packet.{Packet, packet_type, account, lobby}
use graduation_server.Packet.Account.{c_req_exit}
use graduation_server.Packet.Lobby.{c_req_chatting, s_ans_chatting}
use graduation_server.Contents.{run}
use graduation_server.Chatting.Table.{chatting_table, chatting_funcs, run-chatting_table}
use graduation_server.Contents
use graduation_server.Contents.Dispatch.{closed, run-initialize}
use graduation_server.Chatting.{User, Lobby, user_at, broadcast}
use graduation_server.Chatting.Handlers.{chat, c_req_chatting_func}

-- The lobby holds the session under some id.
abbrev pub Stores : ℕ → List (ℕ × ℕ) → Type 0
Stores p [] = ⊥
Stores p ((id, q) ∷ more) = (q ≡ p) ⊎ Stores p more

-- A broadcast meets a session that is deleted.
broadcast_dead :
    (packet : Packet) (p : ℕ) (stored : List (ℕ × ℕ)) (w : World Lobby)
    → Stores p stored
    → find p w.sessions.heap ≡ none
    → broadcast packet stored w ≡ none
unfolding broadcast deref send_packet
broadcast_dead packet p [] w h dead = elim h [ ]
broadcast_dead packet p ((id, q) ∷ more) w h dead = elim (Option-cases (find q w.sessions.heap)) [
  | inl gone ↦ ground (arith, gone)
  | inr (s, f) ↦ elim h [
    | inl same ↦ absurd (some_none (sym f ∙ ap (λ (k : ℕ). find k w.sessions.heap) same ∙ dead))
    | inr later ↦ elim (Bool-cases (s.socket == 0)) [
      | inl shut ↦ ground (arith, f, shut, broadcast_dead packet p more w later dead)
      | inr open_socket ↦
          let after : World Lobby = record w { sent = w.sent ++ (to_session q packet ∷ []) } in
          ground (arith, f, open_socket, broadcast_dead packet p more after later dead)
    ]
  ]
]
  where
    some_none : {s : Session} → some s ≢ none
    some_none e = cc

module _ (a2w w2a : List ℕ → List ℕ) where
  chat_dead :
      (p q : ℕ) (text : List ℕ) (w : World Lobby) (t : Session) (user : User)
      → find q w.sessions.heap ≡ some t
      → find t.id w.own.user_pool ≡ some user
      → Stores p w.own.session_storage
      → find p w.sessions.heap ≡ none
      → c_req_chatting_func a2w w2a q (lobby (c_req_chatting text)) w ≡ none
  unfolding c_req_chatting_func chat user_at get_own deref
  chat_dead p q text w t user f u stored dead = ground (
    arith,
    f,
    u,
    broadcast_dead (lobby (s_ans_chatting (w2a user.name) text)) p w.own.session_storage w stored
        dead,
  )

  -- A client that is in the lobby and asks to exit is deleted and stays in the lobby: the next text of any
  -- other registered client makes the server use the deleted session.
  pub chatting-exit :
      (p q : ℕ) (text : List ℕ) (w : World Lobby) (s t : Session) (user : User)
      → find p w.sessions.heap ≡ some s
      → contains p w.sessions.session_list ≡ true
      → Stores p w.own.session_storage
      → p ≢ q
      → find q w.sessions.heap ≡ some t
      → find t.id w.own.user_pool ≡ some user
      → (v : World Lobby) × (run (chatting_table a2w w2a) p (account c_req_exit) w ≡ some (tt, v))
        × (v.own ≡ w.own)
        × (find p v.sessions.heap ≡ none)
        × (run (chatting_table a2w w2a) q (lobby (c_req_chatting text)) v ≡ none)
  unfolding packet_type
  chatting-exit p q text w s t user here listed stored away there known =
      let v : World Lobby = record w { sessions = without p w.sessions } in
      (
        v,
        run-chatting_table a2w w2a p w ∙ (unfold Contents.c_req_exit in closed p w s here listed),
        refl,
        find-erase_self p w.sessions.heap,
        run-initialize (chatting_funcs a2w w2a) q (lobby (c_req_chatting text)) v
            ∙ (unfold run find in
                chat_dead p q text v t user (find-erase_ne p q w.sessions.heap away ∙ there) known
                  stored (find-erase_self p w.sessions.heap)),
      )
