-- ===== src/Chatting.antt =====
-- ChattingServer/LobbyValue.h, LobbyValue.cpp, User.h and UserManager.h: the users, the sessions in the
-- lobby and the rooms of the chatting server.
pub mod Handlers
pub mod EnterRoom
pub mod Table
pub mod Keeping
pub mod Stored
use graduation_server.Common.{
  ℕ, zero, suc, ◌+◌, ◌%◌, ◌^◌, Bool, true, false, Option, none, some, List, [], ◌∷◌, ◌++◌,
  if◌then◌else◌, ◌==◌, ltb, leb, ◌&&◌, find, erase, insert, update,
}
use graduation_server.World.{
  World, Action, done, fault, ◌>>=◌, ◌>>◌, deref, send_packet, get_own, set_own,
}
use graduation_server.Packet.{Packet}

pub record User : Type 0 where
  pub session : ℕ
  pub name : List ℕ

-- `Current_member_in_room` as the bit pattern of an `int`; the two users are pointers that may be null.
pub record LobbyRoom : Type 0 where
  pub current_member : ℕ
  pub user1 : Option ℕ
  pub user2 : Option ℕ

-- The singletons USERMANAGER (`userPool_`) and LOBBYVALUE. `session_storage` and `room_array` are ordered
-- by their keys.
pub record Lobby : Type 0 where
  pub user_pool : List (ℕ × User)
  pub session_storage : List (ℕ × ℕ)
  pub room_array : List (ℕ × LobbyRoom)

-- `std::map::insert` keeps an entry that is there.
unfoldable pub insert_ordered : {V : Type 0} → ℕ → V → List (ℕ × V) → List (ℕ × V)
insert_ordered k v [] = (k, v) ∷ []
insert_ordered k v ((j, w) ∷ m) =
    let rest = insert_ordered k v m in
    if j == k then (j, w) ∷ m else if ltb k j then (k, v) ∷ ((j, w) ∷ m) else (j, w) ∷ rest

-- `Init`: the rooms from `i` on, `n` of them.
unfoldable pub init_rooms : ℕ → ℕ → List (ℕ × LobbyRoom)
init_rooms zero i = []
init_rooms (suc n) i =
    (i, record { current_member = 0; user1 = none; user2 = none }) ∷ init_rooms n (i + 1)

abbrev pub new_lobby : ℕ → Lobby
new_lobby num = record { user_pool = []; session_storage = []; room_array = init_rooms num 0 }

-- `Get_Current_member() >= 2` on an `int`.
unfoldable pub is_full : LobbyRoom → Bool
is_full room = ltb room.current_member (2 ^ 31) && leb 2 room.current_member

-- `room_array[room_num]`, whose key is an `int`. A missing key gives a null pointer, and each use of the
-- result follows it.
unfoldable pub lobby_room : ℕ → Action Lobby LobbyRoom
lobby_room room_num w = elim (find (room_num % 2 ^ 32) w.own.room_array) [
  | none ↦ none
  | some room ↦ some (room, w)
]

-- Through that pointer.
unfoldable pub set_lobby_room : ℕ → LobbyRoom → Action Lobby (Unit {0})
set_lobby_room room_num room = do
  g ← get_own
  set_own (record g { room_array = update (room_num % 2 ^ 32) room g.room_array })

unfoldable pub user_at : ℕ → Action Lobby (Option User)
user_at id = do g ← get_own; done (find id g.user_pool)

unfoldable pub insert_user : ℕ → User → Action Lobby (Unit {0})
insert_user id user = do g ← get_own; set_own (record g { user_pool = insert id user g.user_pool })

unfoldable pub remove_user : ℕ → Action Lobby (Unit {0})
remove_user id = do g ← get_own; set_own (record g { user_pool = erase id g.user_pool })

unfoldable pub store_session : ℕ → ℕ → Action Lobby (Unit {0})
store_session id p = do
  g ← get_own
  set_own (record g { session_storage = insert_ordered id p g.session_storage })

unfoldable pub delete_stored : ℕ → Action Lobby (Unit {0})
delete_stored id = do
  g ← get_own
  set_own (record g { session_storage = erase id g.session_storage })

-- The loop over `session_storage`: a session without a socket is left out.
unfoldable pub broadcast : Packet → List (ℕ × ℕ) → Action Lobby (Unit {0})
broadcast packet [] = done tt
broadcast packet ((id, p) ∷ more) = do
  s ← deref p
  if s.socket == 0 then done tt else send_packet p packet
  broadcast packet more
