-- ===== src/Config/Terminals/Table.antt =====
-- Which terminal a name finds after StaticLib1/TerminalManager.cpp:13-37.
use graduation_server.Common.{
  ℕ, ◌≡◌, ◌≢◌, Bool, refl, sym, ap, ◌∙◌, true, false, Option, none, some, List, [], ◌∷◌, ◌++◌,
  append_assoc, append-nil, arith, if◌then◌else◌, or_else,
}
use mathlib.Core.Path.{subst}
use graduation_server.Config.{passed, Start, ok, ◌>>=◌, Xml, terminal, port, part, int_of, ip_of}
use graduation_server.Config.Terminals.{
  TerminalObject, TerminalManager, same_text, put, get, new_terminal, name_of, put_terminals,
  initialize,
}

-- The first terminal of a list with the name.
abbrev pub first_named : List ℕ → List TerminalObject → Option TerminalObject
first_named key [] = none
first_named key (t ∷ more) = if same_text t.name key then some t else first_named key more

pub same_text_refl : (cs : List ℕ) → same_text cs cs ≡ true
unfolding same_text
same_text_refl [] = refl
same_text_refl (c ∷ cs) = ground (arith, same_text_refl cs)

same_text_eq : (cs ds : List ℕ) → same_text cs ds ≡ true → cs ≡ ds
unfolding same_text
same_text_eq [] [] h = refl
same_text_eq [] (d ∷ ds) h = absurd (no h)
  where
    no : false ≢ true
    no e = cc
same_text_eq (c ∷ cs) [] h = absurd (no h)
  where
    no : false ≢ true
    no e = cc
same_text_eq (c ∷ cs) (d ∷ ds) h = ground (arith, same_text_eq cs ds)

get-put :
    (key k : List ℕ) (t : TerminalObject) (pool : List (List ℕ × TerminalObject))
    → get key (put k t pool) ≡ or_else (get key pool) (if same_text k key then some t else none)
unfolding get put
get-put key k t [] = refl
get-put key k t ((j, u) ∷ more) =
    ground (arith, get-put key k t more, same_text_eq j k, same_text_refl key)

or_else_assoc : (a b c : Option TerminalObject) → or_else (or_else a b) c ≡ or_else a (or_else b c)
or_else_assoc none b c = refl
or_else_assoc (some t) b c = refl

module _ {N : Type 0} (xml : Xml N) (leftover : ℕ) (buffer : List ℕ) where
  -- The terminals that the elements describe.
  abbrev pub configured : List N → Start (List TerminalObject)
  configured [] = ok []
  configured (elem ∷ more) =
      new_terminal xml leftover buffer (name_of xml leftover buffer elem) elem >>= λ t.
      configured more >>= λ ts. ok (t ∷ ts)

  new_terminal-name :
      (given : List ℕ) (elem : N) (t : TerminalObject)
      → new_terminal xml leftover buffer given elem ≡ ok t
      → t.name ≡ given
  unfolding new_terminal
  new_terminal-name given elem t made =
      let (addr, rest, _) = passed (ip_of xml elem) made in
      let (number, now, _) = passed (int_of xml port leftover elem) rest in ground arith

  put_step :
      (elem : N) (more : List N) (m : TerminalManager) (t : TerminalObject)
      → new_terminal xml leftover buffer (name_of xml leftover buffer elem) elem ≡ ok t
      → put_terminals xml leftover buffer (elem ∷ more) m
        ≡ put_terminals xml leftover buffer more (record {
          pool = put (name_of xml leftover buffer elem) t m.pool;
          running = m.running ++ (t ∷ []);
        })
  unfolding put_terminals
  put_step elem more m t made = simp made

  -- A terminal that is put first is found first.
  found_step :
      (key k : List ℕ) (t : TerminalObject) (us : List TerminalObject)
      (pool : List (List ℕ × TerminalObject))
      → t.name ≡ k
      → or_else (get key (put k t pool)) (first_named key us)
        ≡ or_else (get key pool) (first_named key (t ∷ us))
  found_step key k t us pool named =
      ap (λ o. or_else o (first_named key us)) (get-put key k t pool)
      ∙ or_else_assoc (get key pool) (if same_text k key then some t else none) (first_named key us)
      ∙ ap (or_else (get key pool)) (
          either (same_text k key)
          ∙ ap (λ n. if same_text n key then some t else first_named key us) (sym named))
    where
      either :
          (b : Bool)
          → or_else (if b then some t else none) (first_named key us)
            ≡ (if b then some t else first_named key us)
      either true = refl
      either false = refl

  -- What the manager holds after the terminals: all of them run, and a name finds what it found before
  -- or else the first of them with the name.
  abbrev pub Holds : TerminalManager → List TerminalObject → TerminalManager → Type 0
  Holds m ts v =
      (v.running ≡ m.running ++ ts)
      × ((key : List ℕ) → get key v.pool ≡ or_else (get key m.pool) (first_named key ts))

  put_terminals_lem :
      (elems : List N) (m : TerminalManager) (ts : List TerminalObject)
      → configured elems ≡ ok ts
      → (v : TerminalManager) × (put_terminals xml leftover buffer elems m ≡ ok v) × Holds m ts v
  unfolding put_terminals
  put_terminals_lem [] m ts described =
      subst (λ us. (v : TerminalManager) × (ok m ≡ ok v) × Holds m us v) (inner described)
        (m, refl, (sym (append-nil m.running), λ key. sym (none_after (get key m.pool))))
    where
      none_after : (o : Option TerminalObject) → or_else o none ≡ o
      none_after none = refl
      none_after (some t) = refl

      inner : {us ws : List TerminalObject} → ok us ≡ ok ws → us ≡ ws
      inner e = cc
  put_terminals_lem (elem ∷ more) m ts described =
      let given = name_of xml leftover buffer elem in
      let (t, rest, made) = passed (new_terminal xml leftover buffer given elem) described in
      let (us, now, others) = passed (configured more) rest in
      let next : TerminalManager = record {
        pool = put given t m.pool;
        running = m.running ++ (t ∷ []);
      } in
      let (v, ran, (started, found)) = put_terminals_lem more next us others in
      let named = new_terminal-name given elem t made in
      subst
        (λ ws.
          (v : TerminalManager) × (put_terminals xml leftover buffer (elem ∷ more) m ≡ ok v)
          × Holds m ws v)
        (inner now)
        (
          v,
          put_step elem more m t made ∙ ran,
          (
            started ∙ append_assoc m.running (t ∷ []) us,
            λ key. found key ∙ found_step key given t us m.pool named,
          ),
        )
    where
      inner : {us ws : List TerminalObject} → ok us ≡ ok ws → us ≡ ws
      inner e = cc

  -- The terminal manager reads its part of the configuration: where each element describes a terminal, all
  -- of them are made and run, and a name finds what it found before or else the first element with that
  -- name; a second terminal with the name runs and is never found.
  pub initialize-Holds :
      (config root : N) (m : TerminalManager) (ts : List TerminalObject)
      → part xml terminal config ≡ ok (some root)
      → configured (xml.elements root) ≡ ok ts
      → (v : TerminalManager) × (initialize xml leftover buffer config m ≡ ok v) × Holds m ts v
  unfolding initialize
  initialize-Holds config root m ts there described =
      let (v, ran, holds) = put_terminals_lem (xml.elements root) m ts described in
      (v, rw (initialize, there) ran, holds)
