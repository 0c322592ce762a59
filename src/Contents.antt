-- ===== src/Contents.antt =====
-- StaticLib1/ContentsProcess.cpp: the table of handlers by packet type, and the handlers that every
-- server has. The queue that feeds it is in JobQueue.antt.
pub mod Dispatch
pub mod Workers
pub mod Keeping
use graduation_server.Common.{ℕ, Bool, Option, none, some, List, [], ◌∷◌, find, insert}
use graduation_server.Sessions.{Session, SessionType, terminal, client}
use graduation_server.World.{
  World, Action, done, fault, ◌>>=◌, ◌>>◌, deref, on_close, modify_session,
}
use graduation_server.Packet.{Packet, packet_type}
use graduation_server.Packet.Codes.{e_c_notify_heartbeat, e_i_notify_terminal, e_c_req_exit}

-- `RunFunc`: the session that sent the packet, and the packet.
abbrev pub RunFunc : Type 0 → Type 0
RunFunc S = ℕ → Packet → Action S (Unit {0})

module _ {S : Type 0} where
  beat : SessionType → ℕ → Action S (Unit {0})
  beat terminal p = done tt
  beat client p = λ w. modify_session p (λ s. record s { last_heart_beat = w.now }) w

  unfoldable pub packet_heart_beat : RunFunc S
  unfolding beat
  packet_heart_beat p packet = do s ← deref p; beat s.type p

  unfoldable pub packet_notify_terminal : RunFunc S
  packet_notify_terminal p packet = modify_session p λ s. record s { type = terminal }

  -- `SESSIONMANAGER.forceCloseSession(session)` sets a socket option and then closes the session.
  unfoldable pub c_req_exit : RunFunc S
  c_req_exit p packet = on_close p

  -- `registDefaultPacketFunc`: `insert` keeps what is registered already.
  unfoldable pub regist_default_packet_func : List (ℕ × RunFunc S) → List (ℕ × RunFunc S)
  regist_default_packet_func table = insert e_c_req_exit c_req_exit (
      insert e_i_notify_terminal packet_notify_terminal
        (insert e_c_notify_heartbeat packet_heart_beat table))

  -- `registSubPacketFunc`, by the list of a server's own handlers in the order of the source.
  unfoldable pub regist_sub_packet_func :
      List (ℕ × RunFunc S) → List (ℕ × RunFunc S) → List (ℕ × RunFunc S)
  regist_sub_packet_func [] table = table
  regist_sub_packet_func ((type, func) ∷ more) table =
      regist_sub_packet_func more (insert type func table)

  -- The table after `initialize` of a server, where the configuration could be loaded.
  unfoldable pub initialize : List (ℕ × RunFunc S) → List (ℕ × RunFunc S)
  initialize own = regist_sub_packet_func own (regist_default_packet_func [])

  -- `run`: a packet of a type that is not in the table closes the session.
  unfoldable pub run : List (ℕ × RunFunc S) → ℕ → Packet → Action S (Unit {0})
  run table p packet w = elim (find (packet_type packet) table) [
    | none ↦ on_close p w
    | some func ↦ func p packet w
  ]
