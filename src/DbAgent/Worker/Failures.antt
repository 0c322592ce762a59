-- ===== src/DbAgent/Worker/Failures.antt =====
-- What becomes of a query whose command failed: StaticLib1/ADODatabase.cpp:203-208.
use graduation_server.Common.{
  ℕ, zero, suc, ◌≡◌, refl, true, none, some, List, [], ◌∷◌, ◌++◌, running,
}
use graduation_server.World.{
  World, Terminal, to_terminal, ◌>>=◌, get_own, set_own, get_terminal, terminal_send, login_server,
}
use graduation_server.Packet.{account}
use graduation_server.Packet.Account.{i_db_ans_id_pw}
use graduation_server.Database.Record.{Platform, is_eof, move_next, move_first, get_int, get_text}
use graduation_server.DbAgent.{Query, qi_db_req_id_pw, DbAgent, db_running}
use graduation_server.DbAgent.Worker.{
  oid_account_field, name_field, rewound, loaded, destroy, answered, run_query,
}

-- A record set that was never opened, as `CreateInstance` gives it: each call raises an error and leaves
-- it as it is.
pub record IsClosed {R C : Type 0} (ado : Platform R C) (r : R) : Type 0 where
  pub no_end : ado.end_of_file r ≡ none
  pub no_number : ado.int_val oid_account_field r ≡ none
  pub no_text : ado.text name_field r ≡ none
  pub stays : ado.move_next r ≡ r
  pub stays_first : ado.move_first r ≡ r

module _ {R C : Type 0} (ado : Platform R C) where
  rewound_closed : (r : R) → IsClosed ado r → rewound ado (some r) ≡ some r
  rewound_closed r h = rw (is_eof, h.no_end, move_first, h.stays_first) refl

  loaded_closed :
      (fuel : ℕ) (r : R) (answer : List ℕ × ℕ)
      → IsClosed ado r
      → loaded ado fuel (some r) answer ≡ running
  unfolding loaded
  loaded_closed zero r answer h = refl
  loaded_closed (suc fuel) r answer h =
      rw (is_eof, h.no_end, get_text, h.no_text, move_next, h.stays) (loaded_closed fuel r answer h)

  -- Where the command of a query fails, the query keeps the record set that it was made with, which is
  -- closed. The loop for a character's name then goes on for ever: it runs still after any fuel.
  pub loaded-answered :
      (fuel : ℕ) (query : Query R) (r : R) (c : C) (d : DbAgent R C)
      → query.record_set ≡ some r
      → IsClosed ado r
      → loaded ado fuel (rewound ado (answered ado query c none d).0.record_set) ([], 0) ≡ running
  loaded-answered fuel query r c d e h = rw (e, rewound_closed r h) (loaded_closed fuel r ([], 0) h)

  -- The question about an id and a password is answered also where its command fails: once, with the
  -- result FALSE, and the worker's state stays DB_RUNNING. The terminal to the login server is ready.
  pub run_query_failed :
      (leftover fuel : ℕ) (query : Query R) (r : R) (c : C) (w : World (DbAgent R C)) (t : Terminal)
      → query.kind ≡ qi_db_req_id_pw
      → query.record_set ≡ some r
      → IsClosed ado r
      → ado.execute_command query.statement.query query.statement.type w.own.connection ≡ (c, none)
      → w.terminals login_server ≡ some t
      → t.ready ≡ true
      → run_query ado leftover fuel query w
        ≡ some (
          tt,
          record w {
            sent =
                w.sent
                ++ (to_terminal login_server (account (i_db_ans_id_pw query.client_id leftover 0))
                    ∷ []);
            own = record w.own { connection = c; state = db_running };
          },
        )
  unfolding run_query destroy get_own set_own get_terminal terminal_send
  run_query_failed leftover fuel query r c w t k e h failed there ready =
      rw
        (
          ◌>>=◌,
          failed,
          k,
          e,
          rewound_closed r h,
          is_eof,
          h.no_end,
          get_int,
          h.no_number,
          there,
          ready,
        )
        refl
