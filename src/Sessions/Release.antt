-- ===== src/Sessions/Release.antt =====
-- How a session manager ends: StaticLib1/SessionManager.cpp:11-21 and 30-40.
use graduation_server.Common.{
  ℕ, ◌+◌, ◌<◌, ◌≡◌, ◌≢◌, refl, sym, ap, ◌∙◌, true, none, some, List, [], ◌∷◌, arith, find, ==_refl,
  ==_ne, All, find-erase_self, find-erase-none, length,
}
use graduation_server.Sessions.{
  Session, SessionManager, contains, remove, close_session, close_all, release,
}
use graduation_server.Sessions.Lookup.{IsValid, Rising}
use graduation_server.Sessions.Closing.{without, close_session_lem}
use graduation_server.Sessions.Invariant.{close_session_valid}

-- A session with an id below all those in a list is not in it.
Rising-above :
    (heap : List (ℕ × Session)) (seed lo p : ℕ) (s : Session) (ps : List ℕ)
    → find p heap ≡ some s
    → s.id < lo
    → Rising heap seed lo ps
    → (remove p ps ≡ ps) × All (λ (q : ℕ). p ≢ q) ps
unfolding remove
Rising-above heap seed lo p s [] f l h = (refl, tt)
Rising-above heap seed lo p s (q ∷ qs) f l (x, g, m, r) =
    let (kept, away) = Rising-above heap seed (x.id + 1) p s qs f (omega arith) r in
    let differs : q ≢ p = λ e. omega (
      arith,
      l,
      m,
      ap (λ (y : Session). y.id) (inner (sym g ∙ ap (λ (k : ℕ). find k heap) e ∙ f)),
    ) in
    (rw (==_ne q p differs) (ap (λ t. q ∷ t) kept), ((λ e. differs (sym e)), away))
  where
    inner : {y z : Session} → some y ≡ some z → y ≡ z
    inner e = cc

close_listed :
    (p : ℕ) (w : SessionManager) (s : Session) (ps : List ℕ)
    → find p w.heap ≡ some s
    → w.session_list ≡ p ∷ ps
    → close_session 2 p w ≡ some (true, without p w)
unfolding contains
close_listed p w s ps f e =
    let listed : contains p w.session_list ≡ true = ap (contains p) e ∙ rw (==_refl p) refl in
    close_session_lem 0 p w s f ∙ rw (listed) refl

-- The list behind its first session, which is there no second time.
left_list :
    (p : ℕ) (w : SessionManager) (ps : List ℕ)
    → IsValid w
    → w.session_list ≡ p ∷ ps
    → (s : Session) × (find p w.heap ≡ some s) × (remove p w.session_list ≡ ps)
unfolding remove
left_list p w ps i e =
    let (s, f, l, r) = rw (e) at i.ordered in
    let (kept, _) = Rising-above w.heap w.session_seed (s.id + 1) p s ps f (omega arith) r in
    (s, f, ap (remove p) e ∙ rw (==_refl p) kept)

-- What all sessions of a list are closed to.
record IsClosed (ps : List ℕ) (w v : SessionManager) : Type 0 where
  none_listed : v.session_list ≡ []
  none_counted : v.session_count ≡ 0
  freed : All (λ (p : ℕ). find p v.heap ≡ none) ps
  still_freed : (q : ℕ) → find q w.heap ≡ none → find q v.heap ≡ none

closes_on :
    (p : ℕ) (ps : List ℕ) (w u : SessionManager) (s : Session)
    → find p w.heap ≡ some s
    → close_session 2 p w ≡ some (true, u)
    → close_all (p ∷ ps) w ≡ close_all ps u
unfolding close_all
closes_on p ps w u s f e = rw (close_all, f, e) refl

close_all_by :
    (ps : List ℕ) (w : SessionManager)
    → IsValid w
    → w.session_list ≡ ps
    → (v : SessionManager) × (close_all ps w ≡ some v) × IsClosed ps w v
unfolding close_all
close_all_by [] w i e = (
  w,
  refl,
  record {
    none_listed = e;
    none_counted = i.counted ∙ ap length e;
    freed = tt;
    still_freed = λ q h. h;
  },
)
close_all_by (p ∷ ps) w i e =
    let (s, f, left) = left_list p w ps i e in
    let closing = close_listed p w s ps f e in
    let valid = (close_session_valid 0 p w (without p w) s true i f closing).0 in
    let (v, ran, c) = close_all_by ps (without p w) valid left in
    (
      v,
      closes_on p ps w (without p w) s f closing ∙ ran,
      record {
        none_listed = c.none_listed;
        none_counted = c.none_counted;
        freed = (c.still_freed p (find-erase_self p w.heap), c.freed);
        still_freed = λ q h. c.still_freed q (find-erase-none q p w.heap h);
      },
    )

-- The end of a valid manager is defined, also with the destructors of its sessions that close them again:
-- afterwards no session is listed or counted, and each that was listed has been freed.
pub release_valid :
    (w : SessionManager)
    → IsValid w
    → (v : SessionManager) × (release w ≡ some v)
      × (v.session_list ≡ [])
      × (v.session_count ≡ 0)
      × All (λ (p : ℕ). find p v.heap ≡ none) w.session_list
unfolding release
release_valid w i =
    let (v, ran, c) = close_all_by w.session_list w i refl in
    (record v { session_list = [] }, rw (release, ran) refl, refl, c.none_counted, c.freed)
