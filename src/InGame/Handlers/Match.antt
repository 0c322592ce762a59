-- ===== src/InGame/Handlers/Match.antt =====
-- The enemies of a match: InGameServer/InGameProcess.cpp:207-271.
use graduation_server.Common.{
  ℕ, ◌+◌, ◌%◌, ◌^◌, ◌≤◌, ◌<◌, ◌≡◌, refl, inl, inr, Option, none, some, List, [], ◌∷◌, ◌++◌,
  append-nil, append_assoc, arith, if◌then◌else◌, ◌==◌, leb, Bool-cases, Option-cases, find, update,
  find-update_self,
}
use graduation_server.Sessions.{Session}
use graduation_server.World.{World, Event, to_session, deref, send_packet, get_own, set_own}
use graduation_server.Packet.{Packet, battle, round}
use graduation_server.Packet.Battle.{c_req_make_enemy}
use graduation_server.Packet.Round.{s_ans_make_enemy, c_req_enemy_explosion, s_ans_enemy_explosion}
use graduation_server.InGame.{Room, Game, int_key, join, find_room, set_room, find_sessions}
use graduation_server.InGame.Handlers.{
  c_req_make_enemy_func, c_req_enemy_explosion_func, enemy_in, enemy_to, explode_in, explode,
}
use graduation_server.InGame.Handlers.Relay.{IsAlive, joined}

-- The packets of `enemy_to` and of `tell_both`, with the players' sessions.
abbrev pub enemy_events : ℕ → Option ℕ → Packet → List Event
enemy_events p none packet = []
enemy_events p (some q) packet = to_session q packet ∷ (to_session p packet ∷ [])

-- What one room does with a request for an enemy.
abbrev pub enemies_of : Game → Session → ℕ → Packet → Option Room → List Event
unfolding join
enemies_of g s p packet none = []
enemies_of g s p packet (some room) =
    if leb 1 room.total_exploded_enemy
    then []
    else if s.id == room.user1_id
    then enemy_events p (join (find room.user2_id g.simple_sessions)) packet
    else []

pub append_two :
    (es : List Event) (a b : Event) → (es ++ (a ∷ [])) ++ (b ∷ []) ≡ es ++ (a ∷ (b ∷ []))
append_two es a b = append_assoc es (a ∷ []) (b ∷ [])

enemy_to_lem :
    (p key : ℕ) (packet : Packet) (w : World Game) (s : Session)
    → IsAlive w
    → find p w.sessions.heap ≡ some s
    → enemy_to p (join (find key w.own.simple_sessions)) packet w
      ≡ some (
        tt,
        record w { sent = w.sent ++ enemy_events p (join (find key w.own.simple_sessions)) packet },
      )
unfolding enemy_to send_packet
enemy_to_lem p key packet w s alive f =
    elim (Option-cases (join (find key w.own.simple_sessions))) [
      | inl e ↦ rw e (ground (arith, append-nil w.sent))
      | inr (q, e) ↦
          let (x, h) = alive key q (joined key q w.own.simple_sessions e) in
          rw e (ground (arith, h, f, append_two w.sent (to_session q packet) (to_session p packet)))
    ]

enemy_in_lem :
    (p : ℕ) (packet : Packet) (found : Option Room) (w : World Game) (s : Session)
    → IsAlive w
    → find p w.sessions.heap ≡ some s
    → enemy_in p packet found w
      ≡ some (tt, record w { sent = w.sent ++ enemies_of w.own s p packet found })
unfolding enemy_in find_sessions get_own deref enemies_of
enemy_in_lem p packet none w s alive f = ground (arith, append-nil w.sent)
enemy_in_lem p packet (some room) w s alive f =
    elim (Bool-cases (leb 1 room.total_exploded_enemy)) [
      | inl e ↦ ground (arith, e, append-nil w.sent)
      | inr e ↦ elim (Bool-cases (s.id == room.user1_id)) [
        | inl e2 ↦ ground (arith, e, e2, f, enemy_to_lem p room.user2_id packet w s alive f)
        | inr e2 ↦ ground (arith, e, e2, f, append-nil w.sent)
      ]
    ]

-- An enemy that the first player of a room asks for goes to both players, the second player first,
-- if that player is registered with a session and no enemy of the match has exploded. In every
-- other case nobody gets it. The sender's session and all registered sessions are alive.
pub c_req_make_enemy_lem :
    (p room_num x : ℕ) (w : World Game) (s : Session)
    → IsAlive w
    → find p w.sessions.heap ≡ some s
    → c_req_make_enemy_func p (battle (c_req_make_enemy room_num x)) w
      ≡ some (
        tt,
        record w {
          sent =
              w.sent
              ++ enemies_of w.own s p
                  (round (s_ans_make_enemy x))
                  (find (int_key room_num) w.own.room_arr);
        },
      )
unfolding c_req_make_enemy_func find_room get_own
c_req_make_enemy_lem p room_num x w s alive f =
    enemy_in_lem p _ (find (int_key room_num) w.own.room_arr) w s alive f

enemy_in_counted :
    (p : ℕ) (packet : Packet) (room : Room) (w : World Game)
    → 1 ≤ room.total_exploded_enemy
    → enemy_in p packet (some room) w ≡ some (tt, w)
unfolding enemy_in
enemy_in_counted p packet room w l = ground arith

-- When the first player of a room whose count is below five reports exploded enemies, and the new
-- count is neither zero nor past 64 bits, the room has the new count and only the reporting player
-- is told it; after that a request for an enemy from that player's session changes nothing.
pub make_enemy-enemy_explosion :
    (p room_num x enemycount : ℕ) (w : World Game) (s : Session) (room : Room)
    → find p w.sessions.heap ≡ some s
    → find (int_key room_num) w.own.room_arr ≡ some room
    → s.id ≡ room.user1_id
    → room.total_exploded_enemy < 5
    → 1 ≤ room.total_exploded_enemy + enemycount
    → room.total_exploded_enemy + enemycount < 2 ^ 64
    → (v : World Game) × (c_req_enemy_explosion_func p
          (round (c_req_enemy_explosion room_num enemycount))
          w
        ≡ some (tt, v))
      × (v.sent
          ≡ w.sent
            ++ (to_session p
                  (round (s_ans_enemy_explosion room_num (room.total_exploded_enemy + enemycount)))
                ∷ []))
      × (find (int_key room_num) v.own.room_arr
          ≡ some (record room { total_exploded_enemy = room.total_exploded_enemy + enemycount }))
      × (c_req_make_enemy_func p (battle (c_req_make_enemy room_num x)) v ≡ some (tt, v))
unfolding c_req_make_enemy_func c_req_enemy_explosion_func explode_in explode find_room set_room
    get_own set_own deref send_packet
make_enemy-enemy_explosion p room_num x enemycount w s room f r u l1 l2 l3 =
    let total = room.total_exploded_enemy + enemycount in
    let same : (total % 2 ^ 64) ≡ total = ground arith in
    let counted : Room = record room { total_exploded_enemy = total } in
    let kept = find-update_self (int_key room_num) counted room w.own.room_arr r in
    (
      record w {
        sent = w.sent ++ (to_session p (round (s_ans_enemy_explosion room_num total)) ∷ []);
        own = record w.own { room_arr = update (int_key room_num) counted w.own.room_arr };
      },
      ground (arith, r, f, u, l1, same),
      refl,
      kept,
      rw kept (enemy_in_counted p _ counted _ l2),
    )
