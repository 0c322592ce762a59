-- ===== src/InGame.antt =====
-- InGameServer/RoomManager.h and RoomManager.cpp: the rooms of running matches and the sessions of
-- their players. A room is kept by value; nothing but the map refers to it between two packets.
pub mod Handlers
pub mod UserInfo
pub mod Table
pub mod Keeping
use graduation_server.Common.{
  ℕ, ◌%◌, ◌^◌, Bool, true, false, Option, none, some, List, [], ◌∷◌, if◌then◌else◌, find, erase,
  insert, update,
}
use graduation_server.World.{World, Action, done, ◌>>=◌, ◌>>◌, get_own, set_own}

pub record Room : Type 0 where
  pub user1_id : ℕ
  pub user2_id : ℕ
  pub total_exploded_enemy : ℕ

-- The singletons ROOMMANAGER (`roomArr`) and SIMPLEUSERMANAGER (`simpleSessionManager`). An entry of
-- the latter may hold a null pointer.
pub record Game : Type 0 where
  pub room_arr : List (ℕ × Room)
  pub simple_sessions : List (ℕ × Option ℕ)

-- A UInt64 room number becomes an `int` key.
abbrev pub int_key : ℕ → ℕ
int_key n = n % 2 ^ 32

unfoldable pub insert_user_info : ℕ → Room → Action Game (Unit {0})
insert_user_info key room = do
  g ← get_own
  set_own (record g { room_arr = insert key room g.room_arr })

unfoldable pub find_room : ℕ → Action Game (Option Room)
find_room key = do g ← get_own; done (find key g.room_arr)

-- Through the pointer that `find_room` gave.
unfoldable pub set_room : ℕ → Room → Action Game (Unit {0})
set_room key room = do g ← get_own; set_own (record g { room_arr = update key room g.room_arr })

unfoldable pub erase_room : ℕ → Action Game (Unit {0})
erase_room key = do g ← get_own; set_own (record g { room_arr = erase key g.room_arr })

unfoldable pub insert_sessions : ℕ → Option ℕ → Action Game (Unit {0})
insert_sessions id session = do
  g ← get_own
  set_own (record g { simple_sessions = insert id session g.simple_sessions })

unfoldable pub delete_sessions : ℕ → Action Game (Unit {0})
delete_sessions key = do
  g ← get_own
  set_own (record g { simple_sessions = erase key g.simple_sessions })

unfoldable pub join : Option (Option ℕ) → Option ℕ
join none = none
join (some p) = p

-- `Find_sessions`: the null pointer for a missing key, or as it was inserted.
unfoldable pub find_sessions : ℕ → Action Game (Option ℕ)
unfolding join
find_sessions key = do g ← get_own; done (join (find key g.simple_sessions))

-- `delete room`: the destructor `~Room`.
unfoldable pub delete_room : Room → Action Game (Unit {0})
unfolding delete_sessions
delete_room room = do delete_sessions room.user1_id; delete_sessions room.user2_id
