-- ===== src/Contents/Keeping/Tables.antt =====
-- A table of handlers that keep the session manager valid and bounded: StaticLib1/ContentsProcess.cpp.
use graduation_server.Common.{
  ℕ, ◌≡◌, ◌≢◌, refl, sym, ◌∙◌, inl, inr, Bool-cases, Option-cases, none, some, List, [], ◌∷◌, ◌++◌,
  find, ◌==◌,
}
use mathlib.Core.Path.{subst}
use graduation_server.Sessions.{SessionType, terminal, client}
use graduation_server.World.{deref, modify_session}
use graduation_server.Packet.{Packet, packet_type}
use graduation_server.Contents.{
  RunFunc, beat, packet_heart_beat, packet_notify_terminal, c_req_exit, initialize, run,
}
use graduation_server.Contents.Dispatch.{default_funcs, run-initialize}
use graduation_server.Contents.Keeping.Rules.{Keeps, Keeps-done, Keeps-bind}
use graduation_server.Contents.Keeping.Actions.{
  Keeps-now, deref-Keeps, on_close-Keeps, modify_session-Keeps,
}

-- Every handler of a table keeps the sessions.
abbrev pub KeepsAll : {S : Type 0} → ℕ → List (ℕ × RunFunc S) → Type 0
KeepsAll max [] = Unit {0}
KeepsAll max ((type, func) ∷ more) =
    ((p : ℕ) (packet : Packet) → Keeps max (func p packet)) × KeepsAll max more

module _ {S : Type 0} {max : ℕ} where
  packet_heart_beat-Keeps :
      (p : ℕ) (packet : Packet) → Keeps {S = S} max (packet_heart_beat p packet)
  unfolding packet_heart_beat
  packet_heart_beat-Keeps p packet = Keeps-bind (deref p) _ (deref-Keeps p) (λ s. beats (s.type))
    where
      beats : (t : SessionType) → Keeps {S = S} max (beat t p)
      beats terminal = Keeps-done tt
      beats client =
          Keeps-now (λ t. modify_session p (λ s. record s { last_heart_beat = t }))
            (λ t. modify_session-Keeps p (λ s. record s { last_heart_beat = t }) (λ s. refl))

  packet_notify_terminal-Keeps :
      (p : ℕ) (packet : Packet) → Keeps {S = S} max (packet_notify_terminal p packet)
  unfolding packet_notify_terminal
  packet_notify_terminal-Keeps p packet =
      modify_session-Keeps p (λ s. record s { type = terminal }) (λ s. refl)

  c_req_exit-Keeps : (p : ℕ) (packet : Packet) → Keeps {S = S} max (c_req_exit p packet)
  unfolding c_req_exit
  c_req_exit-Keeps p packet = on_close-Keeps p

  find-Keeps :
      (table : List (ℕ × RunFunc S)) (type p : ℕ) (packet : Packet) (func : RunFunc S)
      → KeepsAll max table
      → find type table ≡ some func
      → Keeps max (func p packet)
  unfolding find
  find-Keeps [] type p packet func k e = absurd (no e)
    where
      no : none ≢ some func
      no h = cc
  find-Keeps ((t, f) ∷ more) type p packet func k e = elim (Bool-cases (t == type)) [
    | inl hit ↦ subst (λ g. Keeps max (g p packet)) (inner (rw (hit) at e)) (k.0 p packet)
    | inr miss ↦ find-Keeps more type p packet func (k.1) (rw (miss) at e)
  ]
    where
      inner : {g h : RunFunc S} → some g ≡ some h → g ≡ h
      inner eq = cc

  run-Keeps :
      (table : List (ℕ × RunFunc S)) (p : ℕ) (packet : Packet)
      → KeepsAll max table
      → Keeps max (run table p packet)
  unfolding run
  run-Keeps table p packet k = record {
    at = λ w v a e i. elim (Option-cases (find (packet_type packet) table)) [
      | inl unknown ↦ (on_close-Keeps p).at w v a (rw (run, unknown) at e) i
      | inr (func, f) ↦
          (find-Keeps table (packet_type packet) p packet func k f).at w v a (rw (run, f) at e) i
    ];
  }

  -- A server whose own handlers keep the sessions keeps them, whatever packet it runs.
  pub run-initialize-Keeps :
      (own : List (ℕ × RunFunc S)) (p : ℕ) (packet : Packet)
      → KeepsAll max own
      → Keeps max (run (initialize own) p packet)
  run-initialize-Keeps own p packet k = record {
    at = λ w v a e i.
        (run-Keeps (default_funcs ++ own) p packet
            (packet_heart_beat-Keeps, (packet_notify_terminal-Keeps, (c_req_exit-Keeps, k)))).at
          w v a (sym (run-initialize own p packet w) ∙ e) i;
  }
