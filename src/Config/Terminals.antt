-- ===== src/Config/Terminals.antt =====
-- StaticLib1/TerminalManager.cpp, and Terminal::initialize of Terminal.cpp: the table of terminals.
pub mod Table
use graduation_server.Common.{
  ℕ, Bool, true, false, Option, none, some, List, [], ◌∷◌, ◌++◌, ◌==◌, ◌&&◌, ◌||◌, if◌then◌else◌,
}
use graduation_server.Config.{
  Start, ok, exits, broken, ◌>>=◌, Xml, port, terminal, part, int_of, ip_of,
}

-- `wstr_t` and `strcmp` compare texts by their characters.
unfoldable pub same_text : List ℕ → List ℕ → Bool
same_text [] [] = true
same_text [] (d ∷ ds) = false
same_text (c ∷ cs) [] = false
same_text (c ∷ cs) (d ∷ ds) = c == d && same_text cs ds

-- A terminal object, whose thread connects it (Connecting.antt).
pub record TerminalObject : Type 0 where
  pub name : List ℕ
  pub ip : List ℕ
  pub port : ℕ

-- `terminalPool_`, and all terminals that were made, with their threads.
pub record TerminalManager : Type 0 where
  pub pool : List (List ℕ × TerminalObject)
  pub running : List TerminalObject

-- `std::unordered_map::insert`, which keeps an entry that is there.
unfoldable pub put :
    List ℕ → TerminalObject → List (List ℕ × TerminalObject) → List (List ℕ × TerminalObject)
unfolding same_text
put key t [] = (key, t) ∷ []
put key t ((k, u) ∷ more) = if same_text k key then (k, u) ∷ more else (k, u) ∷ put key t more

-- `get`; `none` is the null pointer.
unfoldable pub get : List ℕ → List (List ℕ × TerminalObject) → Option TerminalObject
unfolding same_text
get key [] = none
get key ((k, u) ∷ more) = if same_text k key then some u else get key more

-- `isTerminal`
unfoldable pub is_terminal : List ℕ → List (List ℕ × TerminalObject) → Bool
unfolding same_text
is_terminal addr [] = false
is_terminal addr ((k, u) ∷ more) = same_text u.ip addr || is_terminal addr more

-- `leftover` is what `port_` and `buffer` what the name of a terminal holds before it is set.
module _ {N : Type 0} (xml : Xml N) (leftover : ℕ) (buffer : List ℕ) where
  -- The constructor and `Terminal::initialize`.
  unfoldable pub new_terminal : List ℕ → N → Start TerminalObject
  new_terminal name elem = do
    addr ← ip_of xml elem
    number ← int_of xml port leftover elem
    ok (record { name = name; ip = addr; port = number })

  -- The name of an element, in _MAX_PATH characters.
  abbrev pub name_of : N → List ℕ
  name_of elem = xml.widen 260 buffer (some (xml.value elem))

  -- The loop of `initialize`.
  unfoldable pub put_terminals : List N → TerminalManager → Start TerminalManager
  unfolding new_terminal
  put_terminals [] m = ok m
  put_terminals (elem ∷ more) m = do
    t ← new_terminal (name_of elem) elem
    put_terminals more
        (record { pool = put (name_of elem) t m.pool; running = m.running ++ (t ∷ []) })

  -- `TerminalManager::initialize`
  unfoldable pub initialize : N → TerminalManager → Start TerminalManager
  unfolding put_terminals
  initialize config m = do
    root ← part xml terminal config
    elim root [ none ↦ ok m | some node ↦ put_terminals (xml.elements node) m ]
