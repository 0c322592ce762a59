-- ===== src/Servers.antt =====
-- The four servers with their tables of handlers (LoginServer, ChattingServer, InGameServer and DBAgent),
-- and the states that each of them reaches while clients connect, send packets and leave.
use graduation_server.Common.{ℕ, ◌≡◌, sym, Option, some, List}
use mathlib.Core.Path.{subst}
use graduation_server.Sessions.{SessionManager, new_manager}
use graduation_server.Sessions.Reachable
use graduation_server.Sessions.Reachable.{IsBounded, Step-IsBounded, Reach-IsBounded}
use graduation_server.Packet.{Packet}
use graduation_server.World.{
  World, Terminal, ServerName, login_server, chatting_server, in_game_server, db_agent,
}
use graduation_server.Contents.{RunFunc, run}
use graduation_server.Contents.Keeping.{Keeps, run-initialize-Keeps}
use graduation_server.Login.{Login, login_table}
use graduation_server.Login.Keeping.{
  c_req_id_pw-Keeps, i_db_ans_id_pw-Keeps, i_login_notify_id_loaded-Keeps,
}
use graduation_server.Chatting.{Lobby}
use graduation_server.Chatting.Table.{chatting_table}
use graduation_server.Chatting.Handlers.Keeping.{
  i_chtting_notify_id-Keeps, i_db_ans_parse_data-Keeps, c_req_regist_chatting_name-Keeps,
  c_req_chatting-Keeps, c_req_exit-Keeps, c_req_lobby_info-Keeps, i_initialize_roommember-Keeps,
}
use graduation_server.Chatting.EnterRoom.Keeping.{c_req_enter_room-Keeps}
use graduation_server.InGame.{Game}
use graduation_server.InGame.Table.{in_game_table}
use graduation_server.InGame.Handlers.Keeping.{
  c_req_player_move-Keeps, c_req_fire_bullet-Keeps, c_req_make_enemy-Keeps,
  c_req_enemy_explosion-Keeps, c_req_make_boss-Keeps, c_req_boss_explosion-Keeps,
}
use graduation_server.InGame.UserInfo.Keeping.{i_user_info-Keeps}
use graduation_server.Database.Record.{Platform}
use graduation_server.DbAgent.{DbAgent, db_agent_table}
use graduation_server.DbAgent.Keeping.{i_db_req_id_pw-Keeps, i_db_req_load_data-Keeps}

-- What a server keeps of its own.
abbrev pub Own : Type 0 → Type 0 → ServerName → Type 0
Own R C login_server = Login
Own R C chatting_server = Lobby
Own R C in_game_server = Game
Own R C db_agent = DbAgent R C

module _ {R C : Type 0} (ado : Platform R C) (a2w w2a : List ℕ → List ℕ)
    (arrive : ℕ → SessionManager → SessionManager) where
  -- The table of each server.
  abbrev pub table : (k : ServerName) → List (ℕ × RunFunc (Own R C k))
  table login_server = login_table
  table chatting_server = chatting_table a2w w2a
  table in_game_server = in_game_table arrive
  table db_agent = db_agent_table ado

  -- A step of the session manager, a packet of a session that runs through the table, or time that passes;
  -- the terminals and what was sent may change as they like.
  pub data Step (k : ServerName) : World (Own R C k) → World (Own R C k) → Type 0 where
    sessions_stepped :
        {w : World (Own R C k)} {m : SessionManager}
        → Reachable.Step w.sessions m
        → Step k w (record w { sessions = m })
    packet_ran :
        (p : ℕ) (packet : Packet) {w v : World (Own R C k)}
        → run (table k) p packet w ≡ some (tt, v)
        → Step k w v
    moved_on :
        (now : ℕ) (terminals : ServerName → Option Terminal) {w : World (Own R C k)}
        → Step k w (record w { now = now; terminals = terminals })

  pub data Reach (k : ServerName) (max : ℕ) : World (Own R C k) → Type 0 where
    start : (w : World (Own R C k)) → w.sessions ≡ new_manager max → Reach k max w
    later : {w v : World (Own R C k)} → Reach k max w → Step k w v → Reach k max v

  module _ {max : ℕ}
      (sound : (n : ℕ) (m : SessionManager) → IsBounded max m → IsBounded max (arrive n m)) where
    table-Keeps : (k : ServerName) (p : ℕ) (packet : Packet) → Keeps max (run (table k) p packet)
    unfolding login_table in_game_table db_agent_table
    table-Keeps login_server p packet =
        run-initialize-Keeps _ p packet
          (c_req_id_pw-Keeps, (i_db_ans_id_pw-Keeps, (i_login_notify_id_loaded-Keeps, tt)))
    table-Keeps chatting_server p packet = run-initialize-Keeps _ p packet (
      i_chtting_notify_id-Keeps,
      (
        i_db_ans_parse_data-Keeps,
        (
          c_req_regist_chatting_name-Keeps a2w w2a,
          (
            c_req_chatting-Keeps a2w w2a,
            (
              c_req_exit-Keeps,
              (
                c_req_lobby_info-Keeps,
                (c_req_enter_room-Keeps, (i_initialize_roommember-Keeps, tt)),
              ),
            ),
          ),
        ),
      ),
    )
    table-Keeps in_game_server p packet = run-initialize-Keeps _ p packet (
      c_req_enemy_explosion-Keeps,
      (
        c_req_player_move-Keeps,
        (
          i_user_info-Keeps arrive sound,
          (
            c_req_fire_bullet-Keeps,
            (c_req_make_enemy-Keeps, (c_req_make_boss-Keeps, (c_req_boss_explosion-Keeps, tt))),
          ),
        ),
      ),
    )
    table-Keeps db_agent p packet =
        run-initialize-Keeps _ p packet
          (i_db_req_id_pw-Keeps ado, (i_db_req_load_data-Keeps ado, tt))

    Step-keeps :
        (k : ServerName) {w v : World (Own R C k)}
        → Step k w v
        → IsBounded max w.sessions
        → IsBounded max v.sessions
    Step-keeps k (sessions_stepped step) i = Step-IsBounded max step i
    Step-keeps k {w = w} {v = v} (packet_ran p packet ran) i =
        (table-Keeps k p packet).at w v tt ran i
    Step-keeps k (moved_on now terminals) i = i

    -- In every state that one of the four servers reaches from an empty session manager, while sessions are
    -- made, added and closed, packets of any session run through the table of the server and time passes,
    -- the session manager is valid and holds at most one session above its maximum. What other threads
    -- do to the sessions while a match waits for its users keeps that, too.
    pub Reach-keeps :
        {k : ServerName} {w : World (Own R C k)} → Reach k max w → IsBounded max w.sessions
    Reach-keeps (start w fresh) =
        subst (IsBounded max) (sym fresh) (Reach-IsBounded Reachable.start)
    Reach-keeps {k = k} (later r step) = Step-keeps k step (Reach-keeps r)
