-- ===== src/Login/Outcomes.antt =====
-- What the handlers of LoginServer/LoginProcess.cpp send, and that they send nothing else.
use graduation_server.Common.{
  ℕ, ◌%◌, ◌^◌, ◌≡◌, refl, ◌∙◌, inl, inr, Option, none, some, List, [], ◌∷◌, ◌++◌, append-nil, arith,
  if◌then◌else◌, ◌==◌, Bool-cases, find, insert,
}
use graduation_server.Sessions.{Session}
use graduation_server.Sessions.Lookup.{IsValid, Finds, session-Finds}
use graduation_server.World.{
  World, Terminal, Event, to_session, to_terminal, ◌>>=◌, deref, send_packet, get_terminal,
  the_terminal, terminal_send, session_by_id, chatting_server, db_agent,
}
use graduation_server.Packet.{Packet, account, notice, packet_type}
use graduation_server.Packet.Account.{
  c_req_id_pw, s_ans_id_pw_fail, s_ans_id_pw_success, i_db_req_id_pw, i_db_ans_id_pw,
}
use graduation_server.Packet.Notice.{i_chtting_notify_id, i_login_notify_id_loaded}
use graduation_server.Login.{
  Login, c_req_id_pw_func, answer_client, i_db_ans_id_pw_func, tell_loaded,
  i_login_notify_id_loaded_func, login_table,
}
use graduation_server.Contents.{
  RunFunc, run, initialize, regist_default_packet_func, regist_sub_packet_func,
}
use graduation_server.Packet.Codes.{e_c_req_id_pw, e_i_db_ans_id_pw, e_i_login_notify_id_loaded}

-- What the answer of the database agent means for a client whose session is looked up.
pub data Verdict : Type 0 where
  gone : Verdict
  refused : ℕ → Verdict
  accepted : Verdict

abbrev pub verdict : ℕ → Option ℕ → Verdict
verdict result none = gone
verdict result (some client_session) = if result == 0 then refused client_session else accepted

-- A packet to a terminal, which is dropped while the terminal is not ready.
abbrev pub if_ready : Terminal → Event → List Event
if_ready t event = if t.ready then event ∷ [] else []

abbrev pub verdict_events : Terminal → ℕ → ℕ → Verdict → List Event
verdict_events t client_id oid_account_id gone = []
verdict_events t client_id oid_account_id (refused client_session) =
    to_session client_session (account s_ans_id_pw_fail) ∷ []
verdict_events t client_id oid_account_id accepted =
    if_ready t (to_terminal chatting_server (notice (i_chtting_notify_id client_id oid_account_id)))

-- The answer to a client whose user was loaded.
abbrev pub success_events : Terminal → List ℕ → Option ℕ → List Event
success_events t name none = []
success_events t name (some q) =
    to_session q (account (s_ans_id_pw_success t.ip (t.port % 2 ^ 32) name)) ∷ []

-- A session that a lookup gives has not been deleted.
abbrev pub IsThere : Option ℕ → World Login → Type 0
IsThere r w = (q : ℕ) → r ≡ some q → (x : Session) × (find q w.sessions.heap ≡ some x)

-- A valid manager answers, with a session that is there.
lookup_total :
    (id : ℕ) (w : World Login)
    → IsValid w.sessions
    → (r : Option ℕ) × Finds w.sessions.heap w.sessions.session_list id (some r)
      × (session_by_id id w ≡ some (r, w))
      × IsThere r w
unfolding session_by_id
lookup_total id w v = elim (session-Finds id w.sessions v) [
  | inl (e, none_there) ↦
      (none, inl (refl, none_there), ground (arith, e), λ q f. absurd (ground arith))
  | inr (q, x, e, l, h, i) ↦
      (some q, inr (q, x, refl, l, h, i), ground (arith, e), λ r f. (x, grind (arith, h, f)))
]

answer_client_lem :
    (client_id oid_account_id result : ℕ) (r : Option ℕ) (w : World Login) (t : Terminal)
    → IsThere r w
    → w.terminals chatting_server ≡ some t
    → answer_client client_id oid_account_id result r w
      ≡ some (
        tt,
        record w { sent = w.sent ++ verdict_events t client_id oid_account_id (verdict result r) },
      )
unfolding answer_client send_packet get_terminal terminal_send
answer_client_lem client_id oid_account_id result none w t alive e =
    ground (arith, append-nil w.sent)
answer_client_lem client_id oid_account_id result (some q) w t alive e =
    let (x, h) = alive q refl in
    elim (Bool-cases (result == 0)) [
      | inl z ↦ ground (arith, z, h)
      | inr z ↦ elim (Bool-cases t.ready) [
        | inl g ↦ ground (arith, z, e, g)
        | inr g ↦ ground (arith, z, e, g, append-nil w.sent)
      ]
    ]

tell_loaded_lem :
    (p : ℕ) (name : List ℕ) (r : Option ℕ) (w : World Login) (s : Session) (t : Terminal)
    → IsThere r w
    → find p w.sessions.heap ≡ some s
    → w.terminals chatting_server ≡ some t
    → tell_loaded p name r w ≡ some (tt, record w { sent = w.sent ++ success_events t name r })
unfolding tell_loaded send_packet get_terminal the_terminal deref
tell_loaded_lem p name none w s t alive f e = ground (arith, append-nil w.sent)
tell_loaded_lem p name (some q) w s t alive f e =
    let (x, h) = alive q refl in ground (arith, e, f, h)

-- The server's own handlers are found under their types.
handlers :
    (find e_c_req_id_pw login_table ≡ some c_req_id_pw_func)
    × (find e_i_db_ans_id_pw login_table ≡ some i_db_ans_id_pw_func)
    × (find e_i_login_notify_id_loaded login_table ≡ some i_login_notify_id_loaded_func)
unfolding login_table initialize regist_sub_packet_func regist_default_packet_func find insert
handlers = (refl, refl, refl)

run_found :
    (packet : Packet) (func : RunFunc Login) (p : ℕ) (w : World Login)
    → find (packet_type packet) login_table ≡ some func
    → run login_table p packet w ≡ func p packet w
unfolding run
run_found packet func p w e = rw (e, run) refl

asked :
    (p : ℕ) (id password : List ℕ) (w : World Login) (s : Session) (t : Terminal)
    → find p w.sessions.heap ≡ some s
    → w.terminals db_agent ≡ some t
    → c_req_id_pw_func p (account (c_req_id_pw id password)) w
      ≡ some (
        tt,
        record w {
          sent =
              w.sent
              ++ if_ready t (to_terminal db_agent (account (i_db_req_id_pw s.id id password)));
        },
      )
unfolding c_req_id_pw_func deref get_terminal terminal_send
asked p id password w s t f e = elim (Bool-cases t.ready) [
  | inl g ↦ ground (arith, f, e, g)
  | inr g ↦ ground (arith, f, e, g, append-nil w.sent)
]

-- The server asks the database agent about an id and a password, under the id of the session that sent
-- them, and drops the request while the agent's terminal is not ready. The session and the terminal
-- have to be there.
pub run-c_req_id_pw :
    (p : ℕ) (id password : List ℕ) (w : World Login) (s : Session) (t : Terminal)
    → find p w.sessions.heap ≡ some s
    → w.terminals db_agent ≡ some t
    → run login_table p (account (c_req_id_pw id password)) w
      ≡ some (
        tt,
        record w {
          sent =
              w.sent
              ++ if_ready t (to_terminal db_agent (account (i_db_req_id_pw s.id id password)));
        },
      )
unfolding packet_type
run-c_req_id_pw p id password w s t f e =
    run_found (account (c_req_id_pw id password)) c_req_id_pw_func p w handlers.0
    ∙ asked p id password w s t f e

-- When the database agent answers, the session with the client's id is looked up. Without one
-- nothing is sent; the result 0 is told to the client alone; any other result goes to the chatting
-- server alone, if its terminal is ready. The sessions are valid, and the chatting server has a
-- terminal.
pub run-i_db_ans_id_pw :
    (p client_id oid_account_id result : ℕ) (w : World Login) (t : Terminal)
    → IsValid w.sessions
    → w.terminals chatting_server ≡ some t
    → (r : Option ℕ) × Finds w.sessions.heap w.sessions.session_list client_id (some r)
      × (run login_table p (account (i_db_ans_id_pw client_id oid_account_id result)) w
          ≡ some (
            tt,
            record w {
              sent = w.sent ++ verdict_events t client_id oid_account_id (verdict result r);
            },
          ))
unfolding packet_type i_db_ans_id_pw_func
run-i_db_ans_id_pw p client_id oid_account_id result w t v e =
    let (r, finds, looked, alive) = lookup_total client_id w v in
    (
      r,
      finds,
      run_found (account (i_db_ans_id_pw client_id oid_account_id result)) i_db_ans_id_pw_func p w
            handlers.1
          ∙ rw (looked, ◌>>=◌) (answer_client_lem client_id oid_account_id result r w t alive e),
    )

-- When a user was loaded with a result other than 0, the session with the client's id, if there is
-- one, and no other is told the address of the chatting server and the name; with the result 0
-- nothing is sent. The sessions are valid, the session that brought the packet is there, and the
-- chatting server has a terminal.
pub run-i_login_notify_id_loaded :
    (p client_id result : ℕ) (name : List ℕ) (w : World Login) (s : Session) (t : Terminal)
    → IsValid w.sessions
    → find p w.sessions.heap ≡ some s
    → w.terminals chatting_server ≡ some t
    → (r : Option ℕ) × Finds w.sessions.heap w.sessions.session_list client_id (some r)
      × (run login_table p (notice (i_login_notify_id_loaded client_id name result)) w
          ≡ some (
            tt,
            record w { sent = w.sent ++ (if result == 0 then [] else success_events t name r) },
          ))
unfolding packet_type i_login_notify_id_loaded_func
run-i_login_notify_id_loaded p client_id result name w s t v f e =
    let (r, finds, looked, alive) = lookup_total client_id w v in
    let told = tell_loaded_lem p name r w s t alive f e in
    let found =
      run_found (notice (i_login_notify_id_loaded client_id name result))
        i_login_notify_id_loaded_func p w handlers.2 in
    elim (Bool-cases (result == 0)) [
      | inl z ↦ (r, finds, found ∙ ground (arith, z, append-nil w.sent))
      | inr z ↦ (r, finds, found ∙ ground (arith, z, looked, told))
    ]
