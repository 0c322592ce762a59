-- ===== src/InGame/Keeping.antt =====
-- InGameServer/RoomManager.cpp: what it does to the rooms leaves the session manager alone.
use graduation_server.Common.{ℕ, Option}
use graduation_server.Contents.Keeping.{Keeps, Keeps-fault, keeps_rules, same_world}
use graduation_server.InGame.{
  Room, insert_user_info, find_room, set_room, erase_room, insert_sessions, delete_sessions,
  find_sessions, delete_room,
}

module _ {max : ℕ} where
  pub insert_user_info-Keeps : (key : ℕ) (room : Room) → Keeps max (insert_user_info key room)
  unfolding insert_user_info
  insert_user_info-Keeps key room = search keeps_rules

  pub find_room-Keeps : (key : ℕ) → Keeps max (find_room key)
  unfolding find_room
  find_room-Keeps key = search keeps_rules

  pub set_room-Keeps : (key : ℕ) (room : Room) → Keeps max (set_room key room)
  unfolding set_room
  set_room-Keeps key room = search keeps_rules

  pub erase_room-Keeps : (key : ℕ) → Keeps max (erase_room key)
  unfolding erase_room
  erase_room-Keeps key = search keeps_rules

  pub insert_sessions-Keeps : (id : ℕ) (p : Option ℕ) → Keeps max (insert_sessions id p)
  unfolding insert_sessions
  insert_sessions-Keeps id p = search keeps_rules

  pub delete_sessions-Keeps : (key : ℕ) → Keeps max (delete_sessions key)
  unfolding delete_sessions
  delete_sessions-Keeps key = search keeps_rules

  pub find_sessions-Keeps : (key : ℕ) → Keeps max (find_sessions key)
  unfolding find_sessions
  find_sessions-Keeps key = search keeps_rules

  pub delete_room-Keeps : (room : Room) → Keeps max (delete_room room)
  unfolding delete_room
  delete_room-Keeps room = search (keeps_rules, delete_sessions-Keeps)

pub ruleset rooms_rules = (
  keeps_rules, insert_user_info-Keeps, find_room-Keeps, set_room-Keeps, erase_room-Keeps,
  insert_sessions-Keeps, find_sessions-Keeps, delete_room-Keeps,
)
