-- ===== src/Contents/Dispatch.antt =====
-- Which handler StaticLib1/ContentsProcess.cpp runs for a packet.
use graduation_server.Common.{
  ℕ, ◌≡◌, refl, sym, ap, ◌∙◌, Bool, true, false, Option, none, some, List, [], ◌∷◌, ◌++◌, arith,
  find, insert, or_else, find-insert, find-append, if◌then◌else◌, ◌==◌,
}
use graduation_server.Packet.{Packet, packet_type}
use graduation_server.Packet.Codes.{e_c_notify_heartbeat, e_i_notify_terminal, e_c_req_exit}
use graduation_server.World.{World, on_close}
use graduation_server.Sessions.{Session, contains}
use graduation_server.Sessions.Closing.{without, close_session_lem}
use graduation_server.Contents.{
  RunFunc, packet_heart_beat, packet_notify_terminal, c_req_exit, regist_default_packet_func,
  regist_sub_packet_func, initialize, run,
}

module _ {S : Type 0} where
  -- The handlers that every server registers first.
  abbrev pub default_funcs : List (ℕ × RunFunc S)
  default_funcs =
      (e_c_notify_heartbeat, packet_heart_beat)
      ∷ (e_i_notify_terminal, packet_notify_terminal)
      ∷ (e_c_req_exit, c_req_exit)
      ∷ []

  or_else_assoc : (a b c : Option (RunFunc S)) → or_else (or_else a b) c ≡ or_else a (or_else b c)
  or_else_assoc none b c = refl
  or_else_assoc (some a) b c = refl

  find-regist_sub :
      (k : ℕ) (own table : List (ℕ × RunFunc S))
      → find k (regist_sub_packet_func own table) ≡ or_else (find k table) (find k own)
  unfolding regist_sub_packet_func find
  find-regist_sub k [] table = elim (find k table) as (λ o. o ≡ or_else o none) [
    | none ↦ refl
    | some f ↦ refl
  ]
  find-regist_sub k ((type, func) ∷ more) table =
      find-regist_sub k more (insert type func table)
      ∙ ap (λ o. or_else o (find k more)) (find-insert k type func table)
      ∙ or_else_assoc (find k table) (if type == k then some func else none) (find k more)
      ∙ ap (or_else (find k table)) (join (type == k))
    where
      join :
          (b : Bool)
          → or_else (if b then some func else none) (find k more)
            ≡ (if b then some func else find k more)
      join true = refl
      join false = refl

  registered : regist_default_packet_func [] ≡ default_funcs
  unfolding regist_default_packet_func insert
  registered = refl

  -- A server dispatches by the first match in the default handlers and then its own, so that no
  -- server replaces a default handler.
  pub run-initialize :
      (own : List (ℕ × RunFunc S)) (p : ℕ) (packet : Packet) (w : World S)
      → run (initialize own) p packet w ≡ run (default_funcs ++ own) p packet w
  unfolding run initialize
  run-initialize own p packet w = rw (first, run)
    where
      first :
          find (packet_type packet) (initialize own)
          ≡ find (packet_type packet) (default_funcs ++ own)
      first =
          find-regist_sub (packet_type packet) own (regist_default_packet_func [])
          ∙ ap (λ table. or_else (find (packet_type packet) table) (find (packet_type packet) own))
              registered
          ∙ sym (find-append (packet_type packet) default_funcs own)

  -- A packet of the type of C_REQ_EXIT runs the default handler, also where a server has its own.
  pub run_exit :
      (own : List (ℕ × RunFunc S)) (p : ℕ) (packet : Packet) (w : World S)
      → packet_type packet ≡ e_c_req_exit
      → run (initialize own) p packet w ≡ c_req_exit p packet w
  run_exit own p packet w e = run-initialize own p packet w ∙ (unfold run find in rw (e, run))

  pub closed :
      (p : ℕ) (w : World S) (s : Session)
      → find p w.sessions.heap ≡ some s
      → contains p w.sessions.session_list ≡ true
      → on_close p w ≡ some (tt, record w { sessions = without p w.sessions })
  unfolding on_close
  closed p w s f c = ground (arith, f, c, close_session_lem 0 p w.sessions s f)

  -- A packet of a type that no handler has closes the session that sent it: a session that is listed
  -- and alive is unlisted, counted off and freed, and nothing is sent.
  pub run_unknown :
      (own : List (ℕ × RunFunc S)) (p : ℕ) (packet : Packet) (w : World S) (s : Session)
      → find (packet_type packet) (default_funcs ++ own) ≡ none
      → find p w.sessions.heap ≡ some s
      → contains p w.sessions.session_list ≡ true
      → run (initialize own) p packet w ≡ some (tt, record w { sessions = without p w.sessions })
  run_unknown own p packet w s e f c =
      run-initialize own p packet w ∙ (unfold run in rw (e, run) (closed p w s f c))
