-- ===== src/InGame/Handlers/Relay.antt =====
-- What the handlers of InGameServer/InGameProcess.cpp:124-341 send, keep and forget.
use graduation_server.Common.{
  ℕ, ◌≡◌, inl, inr, Option, none, some, List, [], ◌∷◌, ◌++◌, append-nil, arith, if◌then◌else◌, ◌==◌,
  Bool-cases, Option-cases, find,
}
use graduation_server.Sessions.{Session}
use graduation_server.World.{World, Event, to_session, deref, send_packet, send_to, get_own}
use graduation_server.Packet.{Packet, battle}
use graduation_server.Packet.Battle.{c_req_player_move, s_ans_player_move, c_req_fire_bullet}
use graduation_server.InGame.{Room, Game, int_key, join, find_room, find_sessions}
use graduation_server.InGame.Handlers.{
  c_req_player_move_func, c_req_fire_bullet_func, move_in, send_if, fire_in,
}

-- The session of the other player of the room, where the sender is one of the two.
abbrev pub partner : Game → ℕ → Room → Option ℕ
unfolding join
partner g id room =
    if room.user1_id == id
    then join (find room.user2_id g.simple_sessions)
    else if room.user2_id == id
    then join (find room.user1_id g.simple_sessions)
    else none

abbrev pub to_partner : Option ℕ → Packet → List Event
to_partner none packet = []
to_partner (some q) packet = to_session q packet ∷ []

-- The sessions that are registered have not been deleted.
abbrev pub IsAlive : World Game → Type 0
IsAlive w =
    (key p : ℕ)
    → find key w.own.simple_sessions ≡ some (some p)
    → (s : Session) × (find p w.sessions.heap ≡ some s)

pub joined :
    (key p : ℕ) (users : List (ℕ × Option ℕ))
    → join (find key users) ≡ some p
    → find key users ≡ some (some p)
unfolding join
joined key p users e = ground arith

send_if_lem :
    (key : ℕ) (packet : Packet) (w : World Game)
    → IsAlive w
    → send_if (join (find key w.own.simple_sessions)) packet w
      ≡ some (
        tt,
        record w { sent = w.sent ++ to_partner (join (find key w.own.simple_sessions)) packet },
      )
unfolding send_if send_packet
send_if_lem key packet w alive = elim (Option-cases (join (find key w.own.simple_sessions))) [
  | inl e ↦ rw e (ground (arith, append-nil w.sent))
  | inr (q, e) ↦
      let (s, h) = alive key q (joined key q w.own.simple_sessions e) in rw e (ground (arith, h))
]

-- What one room's packet does, whether the room is there or not.
move_in_lem :
    (p : ℕ) (packet : Packet) (found : Option Room) (w : World Game) (s : Session)
    → IsAlive w
    → find p w.sessions.heap ≡ some s
    → move_in p packet found w
      ≡ some (
        tt,
        record w {
          sent = w.sent ++ (elim found [
            | none ↦ []
            | some room ↦ to_partner (partner w.own s.id room) packet
          ]);
        },
      )
unfolding move_in find_sessions get_own deref partner
move_in_lem p packet none w s alive f = ground (arith, append-nil w.sent)
move_in_lem p packet (some room) w s alive f = elim (Bool-cases (room.user1_id == s.id)) [
  | inl e ↦ ground (arith, e, f, send_if_lem room.user2_id packet w alive)
  | inr e ↦ elim (Bool-cases (room.user2_id == s.id)) [
    | inl e2 ↦ ground (arith, e, e2, f, send_if_lem room.user1_id packet w alive)
    | inr e2 ↦ ground (arith, e, e2, f, append-nil w.sent)
  ]
]

-- A move of one player of a room goes to the other player, once and unchanged, if that player is
-- registered with a session. A move of anybody else, or for a room that is not there, goes nowhere.
-- The sender's session and all registered sessions are alive.
pub c_req_player_move_lem :
    (p room_num x y : ℕ) (w : World Game) (s : Session)
    → IsAlive w
    → find p w.sessions.heap ≡ some s
    → c_req_player_move_func p (battle (c_req_player_move room_num x y)) w
      ≡ some (
        tt,
        record w {
          sent = w.sent ++ (elim (find (int_key room_num) w.own.room_arr) [
            | none ↦ []
            | some room ↦
                to_partner (partner w.own s.id room) (battle (s_ans_player_move room_num x y))
          ]);
        },
      )
unfolding c_req_player_move_func find_room get_own
c_req_player_move_lem p room_num x y w s alive f =
    move_in_lem p _ (find (int_key room_num) w.own.room_arr) w s alive f

-- A shot of the first player of a room, whose session is alive, is undefined behaviour while the
-- second player is not registered or is registered with a null pointer.
pub c_req_fire_bullet_null :
    (p room_num x y : ℕ) (w : World Game) (s : Session) (room : Room)
    → find p w.sessions.heap ≡ some s
    → find (int_key room_num) w.own.room_arr ≡ some room
    → room.user1_id ≡ s.id
    → join (find room.user2_id w.own.simple_sessions) ≡ none
    → c_req_fire_bullet_func p (battle (c_req_fire_bullet room_num x y)) w ≡ none
unfolding c_req_fire_bullet_func fire_in find_room find_sessions get_own deref send_to
c_req_fire_bullet_null p room_num x y w s room f r u n = ground (arith, f, r, u, n)
