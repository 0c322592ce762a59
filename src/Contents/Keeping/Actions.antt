-- ===== src/Contents/Keeping/Actions.antt =====
-- What handlers call keeps the session manager valid and bounded: StaticLib1/Session.cpp, Terminal.cpp and
-- SessionManager.cpp.
use graduation_server.Common.{
  ℕ, ◌+◌, ◌≡◌, ◌≢◌, sym, ap, ◌∙◌, inl, inr, Bool-cases, Option, Option-cases, none, some, List, [],
  ◌∷◌, arith, find, update, ◌==◌, find-update_self, find-update_ne,
}
use mathlib.Core.Path.{subst}
use graduation_server.Sessions.{Session, SessionType, terminal, client, close_session}
use graduation_server.Sessions
use graduation_server.Sessions.Lookup.{Rising}
use graduation_server.Sessions.Reachable.{closed, IsBounded, Step-IsBounded}
use graduation_server.World.{
  World, Action, deref, send_packet, send_to, get_terminal, the_terminal, terminal_send,
  session_by_id, on_close, modify_session, get_own, set_own, Terminal, ServerName,
}
use graduation_server.Packet.{Packet}
use graduation_server.Contents.Keeping.Rules.{
  Keeps, Keeps-done, Keeps-fault, Keeps-if, Keeps-same, Keeps-bind,
}

pub same_world :
    {S A : Type 0} {a b : A} {u w : World S}
    → ◌≡◌ {A = Option (A × World S)} (some (a, u)) (some (b, w))
    → u ≡ w
same_world e = cc

pub not_some : {S A : Type 0} {x : A × World S} → none ≢ some x
not_some h = cc

module _ {S : Type 0} {max : ℕ} where
  pub deref-Keeps : (p : ℕ) → Keeps {S = S} max (deref p)
  unfolding deref
  deref-Keeps p = Keeps-same (deref p) same
    where
      same : (w v : World S) (s : Session) → deref p w ≡ some (s, v) → v.sessions ≡ w.sessions
      same w v s e = elim (Option-cases (find p w.sessions.heap)) [
        | inl dead ↦ absurd (not_some (rw (deref, dead) at e))
        | inr (t, f) ↦ ap (λ (u : World S). u.sessions) (sym (same_world (rw (deref, f) at e)))
      ]

  pub send_packet-Keeps : (p : ℕ) (packet : Packet) → Keeps {S = S} max (send_packet p packet)
  unfolding send_packet
  send_packet-Keeps p packet = Keeps-same (send_packet p packet) same
    where
      same :
          (w v : World S) (u : Unit {0})
          → send_packet p packet w ≡ some (u, v)
          → v.sessions ≡ w.sessions
      same w v u e = elim (Option-cases (find p w.sessions.heap)) [
        | inl dead ↦ absurd (not_some (rw (send_packet, dead) at e))
        | inr (t, f) ↦
            ap (λ (x : World S). x.sessions) (sym (same_world (rw (send_packet, f) at e)))
      ]

  pub send_to-Keeps : (p : Option ℕ) (packet : Packet) → Keeps {S = S} max (send_to p packet)
  unfolding send_to
  send_to-Keeps none packet = Keeps-fault
  send_to-Keeps (some p) packet = send_packet-Keeps p packet

  pub get_terminal-Keeps : (name : ServerName) → Keeps {S = S} max (get_terminal name)
  unfolding get_terminal
  get_terminal-Keeps name =
      Keeps-same (get_terminal name)
        (λ w v a e. ap (λ (x : World S). x.sessions) (sym (same_world e)))

  pub the_terminal-Keeps : (t : Option Terminal) → Keeps {S = S} max (the_terminal t)
  unfolding the_terminal
  the_terminal-Keeps none = Keeps-fault
  the_terminal-Keeps (some t) = Keeps-done t

  pub terminal_send-Keeps :
      (name : ServerName) (t : Option Terminal) (packet : Packet)
      → Keeps {S = S} max (terminal_send name t packet)
  unfolding terminal_send
  terminal_send-Keeps name none packet = Keeps-fault
  terminal_send-Keeps name (some t) packet = Keeps-same (terminal_send name (some t) packet) same
    where
      same :
          (w v : World S) (u : Unit {0})
          → terminal_send name (some t) packet w ≡ some (u, v)
          → v.sessions ≡ w.sessions
      same w v u e = elim (Bool-cases t.ready) [
        | inl b ↦ ap (λ (x : World S). x.sessions) (sym (same_world (rw (terminal_send, b) at e)))
        | inr b ↦ ap (λ (x : World S). x.sessions) (sym (same_world (rw (terminal_send, b) at e)))
      ]

  pub session_by_id-Keeps : (id : ℕ) → Keeps {S = S} max (session_by_id id)
  unfolding session_by_id
  session_by_id-Keeps id = Keeps-same (session_by_id id) same
    where
      same :
          (w v : World S) (o : Option ℕ)
          → session_by_id id w ≡ some (o, v)
          → v.sessions ≡ w.sessions
      same w v o e = elim (Option-cases (Sessions.session id w.sessions)) [
        | inl stuck ↦ absurd (not_some (rw (session_by_id, stuck) at e))
        | inr (r, f) ↦
            ap (λ (x : World S). x.sessions) (sym (same_world (rw (session_by_id, f) at e)))
      ]

  pub get_own-Keeps : Keeps {S = S} max get_own
  unfolding get_own
  get_own-Keeps =
      Keeps-same get_own (λ w v a e. ap (λ (x : World S). x.sessions) (sym (same_world e)))

  pub set_own-Keeps : (s : S) → Keeps max (set_own s)
  unfolding set_own
  set_own-Keeps s =
      Keeps-same (set_own s) (λ w v a e. ap (λ (x : World S). x.sessions) (sym (same_world e)))

  pub on_close-Keeps : (p : ℕ) → Keeps {S = S} max (on_close p)
  unfolding on_close
  on_close-Keeps p = record {
    at = λ w v u e i. elim (Option-cases (find p w.sessions.heap)) [
      | inl dead ↦ absurd (not_some (rw (on_close, dead) at e))
      | inr (s, f) ↦ elim (Option-cases (close_session 2 p w.sessions)) [
        | inl stuck ↦ absurd (not_some (rw (on_close, f, stuck) at e))
        | inr ((b, m), ran) ↦
            let now = ap (λ (x : World S). x.sessions) (same_world (rw (on_close, f, ran) at e)) in
            subst (IsBounded max) now (Step-IsBounded max (closed 0 p s b f ran) i)
      ]
    ];
  }

-- An object that changes and keeps its id leaves the list in order.
Rising-update :
    (heap : List (ℕ × Session)) (seed lo p : ℕ) (s t : Session) (ps : List ℕ)
    → find p heap ≡ some s
    → t.id ≡ s.id
    → Rising heap seed lo ps
    → Rising (update p t heap) seed lo ps
Rising-update heap seed lo p s t [] f same h = h
Rising-update heap seed lo p s t (q ∷ qs) f same (x, g, l, r) = elim (Bool-cases (p == q)) [
  | inl e ↦
      let here : p ≡ q = ground arith in
      let is_s : x ≡ s = inner (sym g ∙ ap (λ (k : ℕ). find k heap) (sym here) ∙ f) in
      let id : t.id ≡ x.id = same ∙ ap (λ (y : Session). y.id) (sym is_s) in
      (
        t,
        ap (λ (k : ℕ). find k (update p t heap)) (sym here) ∙ find-update_self p t s heap f,
        omega (arith, l, id),
        subst (λ (n : ℕ). Rising (update p t heap) seed (n + 1) qs) (sym id)
            (Rising-update heap seed (x.id + 1) p s t qs f same r),
      )
  | inr e ↦ (
    x,
    find-update_ne p q t heap (ground arith) ∙ g,
    l,
    Rising-update heap seed (x.id + 1) p s t qs f same r,
  )
]
  where
    inner : {a b : Session} → some a ≡ some b → a ≡ b
    inner h = cc

module _ {S : Type 0} {max : ℕ} where
  pub modify_session-Keeps :
      (p : ℕ) (f : Session → Session)
      → ((s : Session) → (f s).id ≡ s.id)
      → Keeps {S = S} max (modify_session p f)
  unfolding modify_session
  modify_session-Keeps p f same = record {
    at = λ w v u e i. elim (Option-cases (find p w.sessions.heap)) [
      | inl dead ↦ absurd (not_some (rw (modify_session, dead) at e))
      | inr (s, g) ↦
          let now = ap (λ (x : World S). x.sessions) (same_world (rw (modify_session, g) at e)) in
          subst (IsBounded max) now (record {
            valid = record {
              ordered =
                  Rising-update w.sessions.heap w.sessions.session_seed 1 p s (f s)
                    w.sessions.session_list g (same s) i.valid.ordered;
              counted = i.valid.counted;
            };
            count = i.count;
            maximum = i.maximum;
          })
    ];
  }

  -- A `let` of the clock.
  pub Keeps-now :
      (m : ℕ → Action S (Unit {0})) → ((t : ℕ) → Keeps max (m t)) → Keeps max (λ w. m w.now w)
  Keeps-now m k = record { at = λ w v a e i. (k w.now).at w v a e i }

pub ruleset keeps_rules = (
  Keeps-done, Keeps-fault, Keeps-if, Keeps-bind, deref-Keeps, send_packet-Keeps, send_to-Keeps,
  get_terminal-Keeps, the_terminal-Keeps, terminal_send-Keeps, session_by_id-Keeps, get_own-Keeps,
  set_own-Keeps, on_close-Keeps,
)
