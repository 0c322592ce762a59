-- ===== src/Sessions/Reachable.antt =====
-- The states that a session manager reaches: StaticLib1/SessionManager.cpp:42-88.
use graduation_server.Common.{
  ℕ, suc, ◌+◌, ◌^◌, ◌≤◌, ◌<◌, ◌≡◌, ◌≢◌, refl, sym, ap, ◌∙◌, inl, inr, Bool, true, false, Bool-cases,
  none, some, List, [], ◌∷◌, arith, find, insert, find-insert_ne,
}
use graduation_server.Sessions.{
  Session, SessionManager, contains, add_session, close_session, new_manager,
}
use graduation_server.Sessions.Lookup.{IsValid, Rising}
use graduation_server.Sessions.Closing.{without, close_session_lem}
use graduation_server.Sessions.Invariant.{
  add_session_valid, close_session_valid, add_session-le_max,
}

-- A session object is made at a new place, added or refused, or closed while it is alive, at any depth of
-- re-entry from two on. The seed does not wrap.
pub data Step : SessionManager → SessionManager → Type 0 where
  made :
      (p : ℕ) (s : Session) {w : SessionManager}
      → find p w.heap ≡ none
      → Step w (record w { heap = insert p s w.heap })
  added :
      (p : ℕ) {w v : SessionManager}
      → w.session_seed + 1 < 2 ^ 64
      → add_session p w ≡ some (true, v)
      → Step w v
  refused : (p : ℕ) {w v : SessionManager} → add_session p w ≡ some (false, v) → Step w v
  closed :
      (depth p : ℕ) (s : Session) (b : Bool) {w v : SessionManager}
      → find p w.heap ≡ some s
      → close_session (suc (suc depth)) p w ≡ some (b, v)
      → Step w v

pub data Reach (max : ℕ) : SessionManager → Type 0 where
  start : Reach max (new_manager max)
  later : {w v : SessionManager} → Reach max w → Step w v → Reach max v

-- A valid manager that holds at most one session more than its maximum.
pub record IsBounded (max : ℕ) (w : SessionManager) : Type 0 where
  pub valid : IsValid w
  pub count : w.session_count ≤ max + 1
  pub maximum : w.max_connection ≡ max

Rising-insert :
    (heap : List (ℕ × Session)) (seed lo p : ℕ) (s : Session) (ps : List ℕ)
    → find p heap ≡ none
    → Rising heap seed lo ps
    → Rising (insert p s heap) seed lo ps
Rising-insert heap seed lo p s [] fresh h = h
Rising-insert heap seed lo p s (q ∷ qs) fresh (x, f, l, r) =
    let kept : find q (insert p s heap) ≡ some x =
      find-insert_ne p q s heap (λ e. none_some (sym fresh ∙ ap (λ (k : ℕ). find k heap) e ∙ f))
      ∙ f in
    (x, kept, l, Rising-insert heap seed (x.id + 1) p s qs fresh r)
  where
    none_some : {y : Session} → none ≢ some y
    none_some e = cc

refused_same : (p : ℕ) (w v : SessionManager) → add_session p w ≡ some (false, v) → v ≡ w
unfolding add_session
refused_same p w v e = ground arith

closed_count :
    (depth p : ℕ) (w v : SessionManager) (s : Session) (b : Bool)
    → find p w.heap ≡ some s
    → close_session (suc (suc depth)) p w ≡ some (b, v)
    → (v.session_count ≤ w.session_count) × (v.max_connection ≡ w.max_connection)
closed_count depth p w v s b f e =
    let closing = close_session_lem depth p w s f in
    elim (Bool-cases (contains p w.session_list)) [
      | inl c ↦
          let now : v ≡ without p w = ground (arith, closing) in
          (
            omega (arith, ap (λ (m : SessionManager). m.session_count) now),
            ap (λ (m : SessionManager). m.max_connection) now,
          )
      | inr c ↦
          let now : v ≡ w = ground (arith, closing) in
          (
            omega (arith, ap (λ (m : SessionManager). m.session_count) now),
            ap (λ (m : SessionManager). m.max_connection) now,
          )
    ]

pub Step-IsBounded : (max : ℕ) {w v : SessionManager} → Step w v → IsBounded max w → IsBounded max v
Step-IsBounded max {w = w} (made p s fresh) i = record {
  valid = record {
    ordered = Rising-insert w.heap w.session_seed 1 p s w.session_list fresh i.valid.ordered;
    counted = i.valid.counted;
  };
  count = i.count;
  maximum = i.maximum;
}
Step-IsBounded max {w = w} {v = v} (added p small e) i =
    let (most, same) = add_session-le_max p w v true (omega (arith, i.count, i.maximum)) e in
    record {
      valid = (add_session_valid p w v i.valid small e).0;
      count = omega (arith, most, same, i.maximum);
      maximum = same ∙ i.maximum;
    }
Step-IsBounded max {w = w} {v = v} (refused p e) i = rw (sym (refused_same p w v e)) at i
Step-IsBounded max {w = w} {v = v} (closed depth p s b f e) i =
    let (less, same) = closed_count depth p w v s b f e in
    record {
      valid = (close_session_valid depth p w v s b i.valid f e).0;
      count = omega (arith, less, i.count);
      maximum = same ∙ i.maximum;
    }

-- Every state that a session manager reaches from its start, by sessions that are made, added, refused and
-- closed while they are alive and while the seed does not wrap, is valid: the sessions in its list are
-- alive, their ids rise, and the count is the length of the list. It never holds more than one session
-- above its maximum, which stays what it was.
pub Reach-IsBounded : {max : ℕ} {w : SessionManager} → Reach max w → IsBounded max w
Reach-IsBounded start = record {
  valid = record { ordered = omega arith; counted = refl };
  count = omega arith;
  maximum = refl;
}
Reach-IsBounded {max = max} (later r step) = Step-IsBounded max step (Reach-IsBounded r)
