-- ===== src/Sessions/Closing.antt =====
-- `closeSession` of StaticLib1/SessionManager.cpp and the destructor that calls it again.
use graduation_server.Common.{
  ℕ, zero, suc, ◌-◌, ◌≡◌, refl, inl, inr, Bool, true, false, Option, none, some, List, [], ◌∷◌,
  ◌++◌, arith, find, erase, insert, Option-cases, if◌then◌else◌, find-erase_self,
}
use graduation_server.Sessions.{
  Session, SessionManager, client, contains, remove, delete_after, close_session, delete_session,
  add_session, on_accept,
}

pub contains-remove : (p : ℕ) (ps : List ℕ) → contains p (remove p ps) ≡ false
unfolding contains remove
contains-remove p [] = refl
contains-remove p (q ∷ qs) = ground (arith, contains-remove p qs)

-- The manager without the session at `p`.
abbrev pub without : ℕ → SessionManager → SessionManager
without p w = record w {
  heap = erase p w.heap;
  session_list = remove p w.session_list;
  session_count = w.session_count - 1;
}

close_session_unlisted :
    (depth p : ℕ) (w : SessionManager)
    → contains p w.session_list ≡ false
    → close_session (suc depth) p w ≡ some (false, w)
unfolding close_session
close_session_unlisted depth p w h = ground arith

delete_session_unlisted :
    (depth p : ℕ) (w : SessionManager) (s : Session)
    → contains p w.session_list ≡ false
    → find p w.heap ≡ some s
    → delete_after (close_session (suc depth) p) p w
      ≡ some (true, record w { heap = erase p w.heap })
unfolding delete_after
delete_session_unlisted depth p w s h f = ground (arith, close_session_unlisted depth p w h)

-- Closing a session that is alive and listed unlists it, counts it off and frees it once: the call
-- that its destructor makes finds it gone, so two levels are enough. Closing one that is alive and
-- not listed changes nothing.
pub close_session_lem :
    (depth p : ℕ) (w : SessionManager) (s : Session)
    → find p w.heap ≡ some s
    → close_session (suc (suc depth)) p w
      ≡ (if contains p w.session_list then some (true, without p w) else some (false, w))
unfolding close_session
close_session_lem depth p w s f = ground (
  arith,
  delete_session_unlisted depth p
      (record w { session_list = remove p w.session_list; session_count = w.session_count - 1 }) s
      (contains-remove p w.session_list) f,
)

delete_after_frees :
    (reenter : SessionManager → Option (Bool × SessionManager)) (p : ℕ) (w v : SessionManager)
    (b : Bool)
    → delete_after reenter p w ≡ some (b, v)
    → find p v.heap ≡ none
unfolding delete_after
delete_after_frees reenter p w v b e = elim (Option-cases (reenter w)) [
  | inl fault ↦ ground (arith, fault)
  | inr ((c, u), ran) ↦ ground (arith, ran, find-erase_self p u.heap)
]

delete_after_gone :
    (reenter : SessionManager → Option (Bool × SessionManager)) (p : ℕ) (w : SessionManager)
    → ((b : Bool) (v : SessionManager) → reenter w ≡ some (b, v) → find p v.heap ≡ none)
    → delete_after reenter p w ≡ none
unfolding delete_after
delete_after_gone reenter p w gone = elim (Option-cases (reenter w)) [
  | inl fault ↦ ground (arith, fault)
  | inr ((c, u), ran) ↦ ground (arith, ran, gone c u ran)
]

close_session_frees :
    (depth p : ℕ) (w : SessionManager)
    → contains p w.session_list ≡ true
    → (b : Bool) (v : SessionManager) → close_session depth p w ≡ some (b, v)
    → find p v.heap ≡ none
unfolding close_session
close_session_frees zero p w c b v e = cc
close_session_frees (suc depth) p w c b v e =
    delete_after_frees (close_session depth p) p _ v b (rw c at e)

-- Deleting a session that is still listed is undefined, at any depth: its destructor closes it, which
-- deletes it a second time inside.
pub delete_session_listed :
    (depth p : ℕ) (w : SessionManager)
    → contains p w.session_list ≡ true
    → delete_session depth p w ≡ none
unfolding delete_session
delete_session_listed depth p w c =
    delete_after_gone (close_session depth p) p w (close_session_frees depth p w c)

pub contains-append : (p : ℕ) (ps : List ℕ) → contains p (ps ++ (p ∷ [])) ≡ true
unfolding contains
contains-append p [] = ground arith
contains-append p (q ∷ qs) = ground (arith, contains-append p qs)

add_session_lists :
    (p : ℕ) (w v : SessionManager)
    → add_session p w ≡ some (true, v)
    → contains p v.session_list ≡ true
unfolding add_session
add_session_lists p w v e = ground (arith, contains-append p w.session_list)

-- `onAccept` of a session that was added but got no completion port deletes it while it is listed,
-- and that is undefined.
pub on_accept_unattached :
    (depth p now socket : ℕ) (w v : SessionManager)
    → add_session p (record w {
      heap =
          insert p
            (record { id = 0; type = client; last_heart_beat = now; socket = socket })
            w.heap;
    })
      ≡ some (true, v)
    → on_accept depth p now socket true false w ≡ none
unfolding on_accept
on_accept_unattached depth p now socket w v e =
    ground (arith, e, delete_session_listed depth p v (add_session_lists p _ v e))
