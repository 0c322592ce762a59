-- ===== src/InGame/UserInfo/Rounds.antt =====
-- One round of the loop of InGameServer/InGameProcess.cpp:64-101: what it registers and reads back.
use graduation_server.Common.{
  ℕ, ◌≡◌, ◌≢◌, sym, inl, inr, Option, none, some, arith, find, insert, find-insert_self,
  find-insert_old, find-insert_ne,
}
use graduation_server.Sessions.{SessionManager}
use graduation_server.Sessions
use graduation_server.Sessions.Lookup.{IsValid, session-Finds}
use graduation_server.World.{World, session_by_id, get_own, set_own}
use graduation_server.InGame.{Room, Game, insert_sessions, find_sessions}
use graduation_server.InGame.UserInfo.{find_users}

-- On valid sessions a lookup is defined.
session_defined :
    (id : ℕ) (m : SessionManager) → IsValid m → (r : Option ℕ) × (Sessions.session id m ≡ some r)
session_defined id m v = elim (session-Finds id m v) [
  | inl (e, _) ↦ (none, e)
  | inr (p, s, e, _, _, _) ↦ (some p, e)
]

-- Once both ids are registered, a round reads back what is registered and changes nothing.
pub find_users_again :
    (room : Room) (w : World Game) (r q : Option ℕ)
    → IsValid w.sessions
    → find room.user1_id w.own.simple_sessions ≡ some r
    → find room.user2_id w.own.simple_sessions ≡ some q
    → find_users room w ≡ some ((r, q), w)
unfolding find_users session_by_id insert_sessions find_sessions get_own set_own
find_users_again room w r q v e1 e2 =
    let (x, d1) = session_defined room.user1_id w.sessions v in
    let (y, d2) = session_defined room.user2_id w.sessions v in
    ground (
      arith,
      d1,
      d2,
      find-insert_old room.user1_id x r w.own.simple_sessions e1,
      find-insert_old room.user2_id y q w.own.simple_sessions e2,
    )

-- The first round registers what it finds for two ids that are new.
pub find_users_first :
    (room : Room) (w : World Game) (r q : Option ℕ)
    → room.user1_id ≢ room.user2_id
    → find room.user1_id w.own.simple_sessions ≡ none
    → find room.user2_id w.own.simple_sessions ≡ none
    → Sessions.session room.user1_id w.sessions ≡ some r
    → Sessions.session room.user2_id w.sessions ≡ some q
    → find_users room w
      ≡ some (
        (r, q),
        record w {
          own = record w.own {
            simple_sessions = insert room.user2_id q (insert room.user1_id r w.own.simple_sessions);
          };
        },
      )
unfolding find_users session_by_id insert_sessions find_sessions get_own set_own
find_users_first room w r q n f1 f2 e1 e2 =
    let users1 = insert room.user1_id r w.own.simple_sessions in
    ground (
      arith,
      find-insert_self room.user1_id r w.own.simple_sessions f1,
      find-insert_ne room.user1_id room.user2_id r w.own.simple_sessions n,
      find-insert_ne room.user2_id room.user1_id q users1 (λ e. n (sym e)),
      find-insert_self room.user2_id q users1,
    )
