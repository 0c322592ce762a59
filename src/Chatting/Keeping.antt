-- ===== src/Chatting/Keeping.antt =====
-- ChattingServer/LobbyValue.cpp and UserManager.h: what they do to the lobby leaves the session manager alone.
use graduation_server.Common.{ℕ, some, List, [], ◌∷◌}
use graduation_server.Packet.{Packet}
use graduation_server.Contents.Keeping.{
  Keeps, Keeps-bind, Keeps-same, keeps_rules, same_world, not_some, deref-Keeps, Keeps-if,
  Keeps-done, send_packet-Keeps,
}
use graduation_server.World.{World, deref, send_packet, done}
use graduation_server.Common.{
  find, ◌≡◌, ◌%◌, ◌^◌, ◌==◌, Option-cases, inl, inr, sym, ap, if◌then◌else◌,
}
use graduation_server.Chatting.{
  User, LobbyRoom, Lobby, lobby_room, set_lobby_room, user_at, insert_user, remove_user,
  store_session, delete_stored, broadcast,
}

module _ {max : ℕ} where
  pub lobby_room-Keeps : (room_num : ℕ) → Keeps max (lobby_room room_num)
  unfolding lobby_room
  lobby_room-Keeps room_num = Keeps-same (lobby_room room_num) same
    where
      same :
          (w v : World Lobby) (r : LobbyRoom)
          → lobby_room room_num w ≡ some (r, v)
          → v.sessions ≡ w.sessions
      same w v r e = elim (Option-cases (find (room_num % 2 ^ 32) w.own.room_array)) [
        | inl missing ↦ absurd (not_some (rw (lobby_room, missing) at e))
        | inr (t, f) ↦
            ap (λ (x : World Lobby). x.sessions) (sym (same_world (rw (lobby_room, f) at e)))
      ]

  pub set_lobby_room-Keeps :
      (room_num : ℕ) (room : LobbyRoom) → Keeps max (set_lobby_room room_num room)
  unfolding set_lobby_room
  set_lobby_room-Keeps room_num room = search keeps_rules

  pub user_at-Keeps : (id : ℕ) → Keeps max (user_at id)
  unfolding user_at
  user_at-Keeps id = search keeps_rules

  pub insert_user-Keeps : (id : ℕ) (user : User) → Keeps max (insert_user id user)
  unfolding insert_user
  insert_user-Keeps id user = search keeps_rules

  pub remove_user-Keeps : (id : ℕ) → Keeps max (remove_user id)
  unfolding remove_user
  remove_user-Keeps id = search keeps_rules

  pub store_session-Keeps : (id p : ℕ) → Keeps max (store_session id p)
  unfolding store_session
  store_session-Keeps id p = search keeps_rules

  pub delete_stored-Keeps : (id : ℕ) → Keeps max (delete_stored id)
  unfolding delete_stored
  delete_stored-Keeps id = search keeps_rules

  pub broadcast-Keeps :
      (packet : Packet) (stored : List (ℕ × ℕ)) → Keeps max (broadcast packet stored)
  unfolding broadcast
  broadcast-Keeps packet [] = search keeps_rules
  broadcast-Keeps packet ((id, p) ∷ more) = Keeps-bind (deref p) _ (deref-Keeps p) (λ s.
      Keeps-bind (if s.socket == 0 then done tt else send_packet p packet)
        (λ _. broadcast packet more)
        (Keeps-if (s.socket == 0) (done tt) (send_packet p packet) (Keeps-done tt)
          (send_packet-Keeps p packet))
        (λ _. broadcast-Keeps packet more))

pub ruleset lobby_rules = (
  keeps_rules, lobby_room-Keeps, set_lobby_room-Keeps, user_at-Keeps, insert_user-Keeps,
  remove_user-Keeps, store_session-Keeps, delete_stored-Keeps, broadcast-Keeps,
)
