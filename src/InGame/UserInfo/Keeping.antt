-- ===== src/InGame/UserInfo/Keeping.antt =====
-- InGameServer/InGameProcess.cpp:41-121: the handler that opens a match does not break the session manager.
use graduation_server.Common.{ℕ, zero, suc, Option, none, some, ap}
use mathlib.Core.Path.{subst}
use graduation_server.Sessions.{SessionManager}
use graduation_server.Sessions.Reachable.{IsBounded}
use graduation_server.World.{World, Action}
use graduation_server.Packet.{Packet, battle}
use graduation_server.Packet.Battle.{i_user_info}
use graduation_server.Contents.Keeping.{Keeps, Keeps-bind, Keeps-fault, keeps_rules, same_world}
use graduation_server.InGame.{Room, Game}
use graduation_server.InGame.UserInfo.{
  give_up, find_users, proceed, others, wait_users, i_user_info_func,
}
use graduation_server.InGame.Keeping.{rooms_rules}

module _ {max : ℕ} where
  give_up-Keeps : (room_num : ℕ) (room : Room) → Keeps max (give_up room_num room)
  unfolding give_up
  give_up-Keeps room_num room = search rooms_rules

  find_users-Keeps : (room : Room) → Keeps max (find_users room)
  unfolding find_users
  find_users-Keeps room = search rooms_rules depth 8

  proceed-Keeps :
      (room_num : ℕ) (a b : Option ℕ) (again : Action Game (Unit {0}))
      → Keeps max again
      → Keeps max (proceed room_num a b again)
  unfolding proceed
  proceed-Keeps room_num none b again k = k
  proceed-Keeps room_num (some p) none again k = k
  proceed-Keeps room_num (some p) (some q) again k = search keeps_rules

  -- What other threads do to the sessions keeps them valid and bounded, too.
  module _ (arrive : ℕ → SessionManager → SessionManager)
      (sound : (n : ℕ) (m : SessionManager) → IsBounded max m → IsBounded max (arrive n m)) where
    others-Keeps : (n : ℕ) → Keeps max (others arrive n)
    unfolding others
    others-Keeps n = record {
      at = λ w v u e i.
          subst (IsBounded max) (ap (λ (x : World Game). x.sessions) (same_world e))
            (sound n w.sessions i);
    }

    wait_users-Keeps :
        (n room_num : ℕ) (room : Room) → Keeps max (wait_users arrive n room_num room)
    unfolding wait_users
    wait_users-Keeps zero room_num room = give_up-Keeps room_num room
    wait_users-Keeps (suc n) room_num room = Keeps-bind (others arrive n) _ (others-Keeps n) (λ _.
        Keeps-bind (find_users room) _ (find_users-Keeps room) (λ found.
          proceed-Keeps room_num (found.0) (found.1) (wait_users arrive n room_num room)
            (wait_users-Keeps n room_num room)))

    pub i_user_info-Keeps : (p : ℕ) (packet : Packet) → Keeps max (i_user_info_func arrive p packet)
    unfolding i_user_info_func
    i_user_info-Keeps p (battle (i_user_info room_num user1_id user2_id)) =
        search (rooms_rules, wait_users-Keeps)
    i_user_info-Keeps p _ = Keeps-fault
