-- ===== src/World.antt =====
-- What the handlers of the four servers share: the session manager, the terminals to other servers
-- (StaticLib1/Terminal.cpp, TerminalManager.cpp), the clock, and the packets sent so far.
-- `none` is undefined behaviour, such as a use of a null pointer or of a deleted session.
use graduation_server.Common.{
  ℕ, Bool, Option, none, some, List, [], ◌∷◌, ◌++◌, if◌then◌else◌, find, update,
}
use graduation_server.Sessions.{
  Session, SessionManager, SessionType, terminal, client, close_session,
}
use graduation_server.Sessions
use graduation_server.Packet.{Packet}

-- The names under which TERMINALMANAGER holds its terminals.
pub data ServerName : Type 0 where
  login_server chatting_server in_game_server db_agent : ServerName

-- `ready` stands for TERMINAL_READY.
pub record Terminal : Type 0 where
  pub ready : Bool
  pub ip : List ℕ
  pub port : ℕ

-- A packet handed to a session, named by its pointer, or to a terminal that is ready.
pub data Event : Type 0 where
  to_session : ℕ → Packet → Event
  to_terminal : ServerName → Packet → Event

-- `own` is the state of the server at hand; `terminals` is `none` where no terminal has the name.
pub record World (S : Type 0) : Type 0 where
  pub sessions : SessionManager
  pub terminals : ServerName → Option Terminal
  pub now : ℕ
  pub sent : List Event
  pub own : S

abbrev pub Action : Type 0 → Type 0 → Type 0
Action S A = World S → Option (A × World S)

abbrev pub done : {S A : Type 0} → A → Action S A
done a w = some (a, w)

abbrev pub fault : {S A : Type 0} → Action S A
fault w = none

infixl 5 ◌>>=◌ ◌>>◌
abbrev pub ◌>>=◌ : {S A B : Type 0} → Action S A → (A → Action S B) → Action S B
◌>>=◌ m f w = elim (m w) [ none ↦ none | some (a, v) ↦ f a v ]

abbrev pub ◌>>◌ : {S B : Type 0} → Action S (Unit {0}) → Action S B → Action S B
m >> k = m >>= λ _. k

module _ {S : Type 0} where
  -- `*session`
  unfoldable pub deref : ℕ → Action S Session
  deref p w = elim (find p w.sessions.heap) [ none ↦ none | some s ↦ some (s, w) ]

  -- `session->sendPacket(&packet)`
  unfoldable pub send_packet : ℕ → Packet → Action S (Unit {0})
  send_packet p packet w = elim (find p w.sessions.heap) [
    | none ↦ none
    | some _ ↦ some (tt, record w { sent = w.sent ++ (to_session p packet ∷ []) })
  ]

  -- The same through a pointer that may be null.
  unfoldable pub send_to : Option ℕ → Packet → Action S (Unit {0})
  unfolding send_packet
  send_to none packet w = none
  send_to (some p) packet w = send_packet p packet w

  -- `TERMINALMANAGER.get(name)`; the inner `none` is the null pointer.
  unfoldable pub get_terminal : ServerName → Action S (Option Terminal)
  get_terminal name w = some (w.terminals name, w)

  -- `terminal->ip()` and `terminal->port()` need a terminal.
  unfoldable pub the_terminal : Option Terminal → Action S Terminal
  the_terminal none w = none
  the_terminal (some t) w = some (t, w)

  -- `terminal->sendPacket(&packet)`: dropped without a word while the terminal is not ready.
  unfoldable pub terminal_send : ServerName → Option Terminal → Packet → Action S (Unit {0})
  terminal_send name none packet w = none
  terminal_send name (some t) packet w =
      some
        (tt, (if t.ready then record w { sent = w.sent ++ (to_terminal name packet ∷ []) } else w))

  -- `SESSIONMANAGER.session(id)`
  unfoldable pub session_by_id : ℕ → Action S (Option ℕ)
  session_by_id id w = elim (Sessions.session id w.sessions) [ none ↦ none | some r ↦ some (r, w) ]

  -- `session->onClose()`, which calls `closeSession`; two levels of it are enough.
  unfoldable pub on_close : ℕ → Action S (Unit {0})
  on_close p w = elim (find p w.sessions.heap) [
    | none ↦ none
    | some _ ↦ elim (close_session 2 p w.sessions) [
      | none ↦ none
      | some (_, m) ↦ some (tt, record w { sessions = m })
    ]
  ]

  -- `session->setType(type)` and `session->updateHeartBeat()`.
  unfoldable pub modify_session : ℕ → (Session → Session) → Action S (Unit {0})
  modify_session p f w = elim (find p w.sessions.heap) [
    | none ↦ none
    | some s ↦
        some
          (tt, record w { sessions = record w.sessions { heap = update p (f s) w.sessions.heap } })
  ]

  unfoldable pub get_own : Action S S
  get_own w = some (w.own, w)

  unfoldable pub set_own : S → Action S (Unit {0})
  set_own s w = some (tt, record w { own = s })
