-- ===== src/Tests/SessionList.antt =====
-- Runs of the session manager: two sessions, of which the first is the session of a server.
use graduation_server.Common.{
  All, ℕ, ◌≡◌, refl, arith, true, false, none, some, [], ◌∷◌, find, insert, update, erase,
  if◌then◌else◌,
}
use graduation_server.Sessions.{
  Session, SessionManager, terminal, client, contains, add_session, close_session, session,
  on_accept, release, new_manager, delete_after, remove,
}
use graduation_server.Sessions.Lookup.{IsValid, Finds, session-Finds}
use graduation_server.Sessions.Closing.{without, close_session_lem, on_accept_unattached}
use graduation_server.Sessions.Release.{release_valid}
use graduation_server.Sessions.Reachable.{Reach, start, later, made, added, closed}

abbrev pub server_session : Session
server_session = record { id = 1; type = terminal; last_heart_beat = 0; socket = 11 }

abbrev pub client_session : Session
client_session = record { id = 2; type = client; last_heart_beat = 0; socket = 12 }

abbrev pub new_session : Session
new_session = record { id = 0; type = client; last_heart_beat = 5; socket = 13 }

-- The objects stand at 100, 200 and 300; the third is not yet listed.
abbrev pub two_sessions : ℕ → SessionManager
two_sessions max = record {
  heap = (100, server_session) ∷ (200, client_session) ∷ (300, new_session) ∷ [];
  session_list = 100 ∷ 200 ∷ [];
  session_count = 2;
  max_connection = max;
  session_seed = 3;
}

-- What the list, the heap and the answers of `add_session` are for it.
pub listed :
    (contains 100 (100 ∷ 200 ∷ []) ≡ true)
    × (contains 200 (100 ∷ 200 ∷ []) ≡ true)
    × (contains 300 (100 ∷ 200 ∷ []) ≡ false)
unfolding contains
listed = (refl, refl, refl)

pub alive :
    (find 100 (two_sessions 9).heap ≡ some server_session)
    × (find 200 (two_sessions 9).heap ≡ some client_session)
    × (find 300 (two_sessions 9).heap ≡ some new_session)
unfolding find
alive = (refl, refl, refl)

pub two_sessions-IsValid : (max : ℕ) → IsValid (two_sessions max)
unfolding find
two_sessions-IsValid max = record {
  ordered =
      (server_session, refl, ground arith, (client_session, refl, ground arith, ground arith));
  counted = refl;
}

release_valid_example :
    (v : SessionManager) × (release (two_sessions 9) ≡ some v)
    × (v.session_list ≡ [])
    × (v.session_count ≡ 0)
    × All (λ (p : ℕ). find p v.heap ≡ none) (100 ∷ 200 ∷ [])
release_valid_example = release_valid (two_sessions 9) (two_sessions-IsValid 9)

close_session_lem_example : close_session 2 100 (two_sessions 9) ≡ (
    if contains 100 (two_sessions 9).session_list
    then some (true, without 100 (two_sessions 9))
    else some (false, two_sessions 9))
close_session_lem_example = close_session_lem 0 100 (two_sessions 9) server_session alive.0

abbrev one_session : SessionManager
one_session = record {
  heap = (300, record new_session { id = 1 }) ∷ [];
  session_list = 300 ∷ [];
  session_count = 1;
  max_connection = 9;
  session_seed = 2;
}

-- One session is made, added and closed.
one_closed : Reach 9 (record one_session { heap = []; session_list = []; session_count = 0 })
unfolding add_session close_session delete_after contains remove find insert update erase
one_closed =
    later
      (later (later start (made 300 new_session refl)) (
        added 300 {w = record (new_manager 9) { heap = (300, new_session) ∷ [] }} {v = one_session}
          (ground arith) refl))
      (closed 0 300 (record new_session { id = 1 }) true {w = one_session} refl refl)

session-Finds_example :
    Finds (two_sessions 9).heap (two_sessions 9).session_list 2 (session 2 (two_sessions 9))
session-Finds_example = session-Finds 2 (two_sessions 9) (two_sessions-IsValid 9)

abbrev accepted : SessionManager
accepted = record {
  heap =
      (100, server_session)
      ∷ (200, client_session)
      ∷ (300, new_session)
      ∷ (400, record { id = 3; type = client; last_heart_beat = 7; socket = 14 })
      ∷ [];
  session_list = 100 ∷ 200 ∷ 400 ∷ [];
  session_count = 3;
  max_connection = 9;
  session_seed = 4;
}

fourth_added :
    add_session 400 (record (two_sessions 9) {
      heap =
          insert 400
            (record { id = 0; type = client; last_heart_beat = 7; socket = 14 })
            (two_sessions 9).heap;
    })
    ≡ some (true, accepted)
unfolding add_session contains find update insert
fourth_added = refl

on_accept_unattached_example : on_accept 2 400 7 14 true false (two_sessions 9) ≡ none
on_accept_unattached_example =
    on_accept_unattached 2 400 7 14 (two_sessions 9) accepted fourth_added
