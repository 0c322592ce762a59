-- ===== src/Sessions.antt =====
-- StaticLib1/Session.h, Session.cpp, SessionManager.h and SessionManager.cpp, and `onAccept` of
-- IOCPServer.cpp. Session objects live on an explicit heap, so a use of a deleted one shows: `none`
-- is undefined behaviour. Each function runs under the manager's lock, so calls do not interleave.
pub mod Lookup
pub mod Closing
pub mod Invariant
pub mod Reachable
pub mod Release
use graduation_server.Common.{
  ℕ, zero, suc, ◌+◌, ◌-◌, ◌%◌, ◌^◌, Bool, true, false, Option, none, some, List, [], ◌∷◌, ◌++◌, ltb,
  leb, ◌==◌, if◌then◌else◌, find, erase, insert, update,
}

-- SESSION_TYPE_TERMINAL and SESSION_TYPE_CLIENT.
pub data SessionType : Type 0 where
  terminal client : SessionType

pub record Session : Type 0 where
  pub id : ℕ
  pub type : SessionType
  pub last_heart_beat : ℕ
  pub socket : ℕ

-- `session_list` holds pointers, `heap` the objects that are alive.
pub record SessionManager : Type 0 where
  pub heap : List (ℕ × Session)
  pub session_list : List ℕ
  pub session_count : ℕ
  pub max_connection : ℕ
  pub session_seed : ℕ

-- The singleton has static storage, so the count that no constructor sets starts at 0.
abbrev pub new_manager : ℕ → SessionManager
new_manager max = record {
  heap = [];
  session_list = [];
  session_count = 0;
  max_connection = max;
  session_seed = 1;
}

unfoldable pub contains : ℕ → List ℕ → Bool
contains p [] = false
contains p (q ∷ qs) = if q == p then true else contains p qs

-- `std::list::remove` takes out every entry that is equal.
unfoldable pub remove : ℕ → List ℕ → List ℕ
remove p [] = []
remove p (q ∷ qs) = if q == p then remove p qs else q ∷ remove p qs

-- `addSession`: the answer is the result of the call.
unfoldable pub add_session : ℕ → SessionManager → Option (Bool × SessionManager)
add_session p w =
    if contains p w.session_list
    then some (false, w)
    else if ltb w.max_connection w.session_count
    then some (false, w)
    else elim (find p w.heap) [
      | none ↦ none
      | some s ↦ some (
        true,
        record w {
          heap = update p (record s { id = w.session_seed }) w.heap;
          session_list = w.session_list ++ (p ∷ []);
          session_count = w.session_count + 1;
          session_seed = (w.session_seed + 1) % 2 ^ 64;
        },
      )
    ]

-- Frees the object at `p` once its destructor, `reenter`, has run.
unfoldable pub delete_after :
    (SessionManager → Option (Bool × SessionManager))
    → ℕ
    → SessionManager
    → Option (Bool × SessionManager)
delete_after reenter p w = elim (find p w.heap) [
  | none ↦ none
  | some _ ↦ elim (reenter w) [
    | none ↦ none
    | some (_, v) ↦ elim (find p v.heap) [
      | none ↦ none
      | some _ ↦ some (true, record v { heap = erase p v.heap })
    ]
  ]
]

-- `closeSession`. It deletes the session, whose destructor calls `closeSession` again: the number
-- bounds how deep that goes, and at 0 the call is given up as `none`.
unfoldable pub close_session : ℕ → ℕ → SessionManager → Option (Bool × SessionManager)
close_session zero p w = none
close_session (suc depth) p w =
    let closed =
      delete_after (close_session depth p) p (record w {
        session_list = remove p w.session_list;
        session_count = w.session_count - 1;
      }) in
    if contains p w.session_list then closed else some (false, w)

-- `SAFE_DELETE(session)`: the destructor `~Session` calls `onClose`, which calls `closeSession`.
unfoldable pub delete_session : ℕ → ℕ → SessionManager → Option (Bool × SessionManager)
delete_session depth p w = delete_after (close_session depth p) p w

-- The loop of `session(id)`: it gives up at the first session whose id is not below the seed.
unfoldable pub search_list : ℕ → List (ℕ × Session) → ℕ → List ℕ → Option (Option ℕ)
search_list seed heap id [] = some none
search_list seed heap id (p ∷ ps) =
    let rest = search_list seed heap id ps in
    elim (find p heap) [
      | none ↦ none
      | some s ↦ if leb seed s.id then some none else if s.id == id then some (some p) else rest
    ]

-- `session(id)`: the inner `none` is the null pointer.
unfoldable pub session : ℕ → SessionManager → Option (Option ℕ)
session id w = search_list w.session_seed w.heap id w.session_list

drop_session : ℕ → ℕ → SessionManager → Option (Bool × SessionManager)
drop_session depth p w = elim (delete_session depth p w) [
  | none ↦ none
  | some (_, v) ↦ some (false, v)
]

register : ℕ → ℕ → Bool → SessionManager → Option (Bool × SessionManager)
unfolding drop_session
register depth p attached w = elim (add_session p w) [
  | none ↦ none
  | some (added, v) ↦
      if added
      then if attached then some (true, v) else drop_session depth p v
      else drop_session depth p v
]

-- `IOCPServer::onAccept` at the address `p` that `new` gave. `accepted` is the answer of the session's
-- `onAccept`, `attached` whether CreateIoCompletionPort gave a handle. The answer says whether the
-- session went on to receive.
unfoldable pub on_accept :
    ℕ → ℕ → ℕ → ℕ → Bool → Bool → SessionManager → Option (Bool × SessionManager)
unfolding drop_session register
on_accept depth p now socket accepted attached w =
    let fresh : Session = record {
      id = 0;
      type = client;
      last_heart_beat = now;
      socket = socket;
    } in
    let v = record w { heap = insert p fresh w.heap } in
    if accepted then register depth p attached v else drop_session depth p v

-- `session->onClose()` for each pointer of a copy of the list, which is undefined for a deleted session.
unfoldable pub close_all : List ℕ → SessionManager → Option SessionManager
close_all [] w = some w
close_all (p ∷ ps) w = elim (find p w.heap) [
  | none ↦ none
  | some _ ↦ elim (close_session 2 p w) [ none ↦ none | some (_, v) ↦ close_all ps v ]
]

-- `release`, and the destructor of the manager; a session that was deleted must not be asked to close.
unfoldable pub release : SessionManager → Option SessionManager
unfolding close_all
release w = elim (close_all w.session_list w) [
  | none ↦ none
  | some v ↦ some (record v { session_list = [] })
]
