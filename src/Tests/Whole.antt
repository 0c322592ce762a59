-- ===== src/Tests/Whole.antt =====
-- A run of the whole login server: a client connects and asks to exit.
use graduation_server.Common.{
  ℕ, ◌≡◌, refl, arith, none, some, List, [], ◌∷◌, find, insert, update, erase,
}
use graduation_server.Sessions.{
  SessionManager, contains, add_session, close_session, delete_after, remove, new_manager,
}
use graduation_server.Sessions.Reachable
use graduation_server.Sessions.Reachable.{IsBounded}
use graduation_server.Packet.{account, packet_type}
use graduation_server.Packet.Account.{c_req_exit}
use graduation_server.World.{World, login_server, on_close}
use graduation_server.Contents.{run, initialize, regist_default_packet_func, regist_sub_packet_func}
use graduation_server.Contents
use graduation_server.Login.{Login, login_table}
use graduation_server.Servers.{Reach, start, later, sessions_stepped, packet_ran, Reach-keeps}
use graduation_server.Tests.SessionList.{new_session}
use graduation_server.Tests.Queries.{served}
use graduation_server.Tests.Matches.{still}

abbrev login_world : SessionManager → World Login
login_world m = record { sessions = m; terminals = λ name. none; now = 8; sent = []; own = tt }

abbrev plain_text : List ℕ → List ℕ
plain_text text = text

abbrev made_one : SessionManager
made_one = record (new_manager 9) { heap = (300, new_session) ∷ [] }

abbrev added_one : SessionManager
added_one = record {
  heap = (300, record new_session { id = 1 }) ∷ [];
  session_list = 300 ∷ [];
  session_count = 1;
  max_connection = 9;
  session_seed = 2;
}

abbrev gone_again : SessionManager
gone_again = record added_one { heap = []; session_list = []; session_count = 0 }

exit_ran :
    run login_table 300 (account c_req_exit) (login_world added_one)
    ≡ some (tt, login_world gone_again)
unfolding run login_table initialize regist_default_packet_func regist_sub_packet_func packet_type
    Contents.c_req_exit on_close close_session delete_after contains remove find insert erase
exit_ran = refl

came_and_went : Reach served plain_text plain_text still login_server 9 (login_world gone_again)
unfolding add_session contains find insert update
came_and_went =
    later
      (later
        (later (start (login_world (new_manager 9)) refl) (
          sessions_stepped {w = login_world (new_manager 9)} (Reachable.made 300 new_session refl)))
        (sessions_stepped {w = login_world made_one}
          (Reachable.added 300 {w = made_one} {v = added_one} (ground arith) refl)))
      (packet_ran 300 (account c_req_exit) {w = login_world added_one} exit_ran)

Reach-keeps_example : IsBounded 9 gone_again
Reach-keeps_example =
    Reach-keeps served plain_text plain_text still (λ n m i. i) {k = login_server} came_and_went
