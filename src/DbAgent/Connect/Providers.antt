-- ===== src/DbAgent/Connect/Providers.antt =====
-- Through which provider a worker connects: StaticLib1/ADODatabase.cpp:44-103, DBManager.cpp:15-52 and 80-95.
use graduation_server.Common.{
  ℕ, zero, suc, ◌+◌, ◌^◌, ◌<◌, ◌≡◌, ◌⊎◌, inl, inr, Bool-cases, refl, Bool, true, false, Option,
  none, some, List, [], ◌∷◌, ◌++◌, arith, ltb, if◌then◌else◌, or_else,
}
use graduation_server.Config.{Start, ok, exits, Xml, Tag, data_base, part, int_of}
use graduation_server.DbAgent.{db_stop, db_standby}
use graduation_server.DbAgent.Connect.{
  AdoDatabase, Account, connection_text, mssql_name, sqlncli, connect_once, connect_as,
  connect_from, connect, run_workers, make_databases, new_database, read_account, initialize,
}

-- The versions of the provider from `index` on.
abbrev versions : ℕ → ℕ → List (List ℕ)
versions zero index = []
versions (suc left) index = mssql_name index ∷ versions left (index + 1)

-- The providers in the order in which they are tried, "SQLNCLI10" to "SQLNCLI19" and "SQLNCLI".
abbrev pub providers : List (List ℕ)
providers = versions 10 10 ++ (sqlncli ∷ [])

module _ (opens : List ℕ → Bool) (a : Account) where
  -- The first provider through which the database opens.
  abbrev pub first_opening : List (List ℕ) → Option (List ℕ)
  first_opening [] = none
  first_opening (p ∷ more) = if opens (connection_text p a) then some p else first_opening more

  -- A worker that is connected through a provider.
  abbrev pub standing : AdoDatabase → List ℕ → AdoDatabase
  standing d p = record d { connection_str = connection_text p a; state = db_standby }

  abbrev tried : AdoDatabase → List ℕ → AdoDatabase
  tried d str = record d { connection_str = str }

  opened :
      (p : List ℕ) (d : AdoDatabase)
      → d.created ≡ true
      → opens (connection_text p a) ≡ true
      → connect_as opens p a d ≡ (true, standing d p)
  unfolding connect_as connect_once
  opened p d there e = simp (there, e)

  refused :
      (p : List ℕ) (d : AdoDatabase)
      → opens (connection_text p a) ≡ false
      → connect_as opens p a d ≡ (false, tried d (connection_text p a))
  unfolding connect_as connect_once
  refused p d e = elim (Bool-cases d.created) [
    | inl there ↦ simp (there, e)
    | inr not_there ↦ simp not_there
  ]

  -- What the loop comes to.
  abbrev Tries : List (List ℕ) → Bool × AdoDatabase → AdoDatabase → Type 0
  Tries ps result d =
      ((p : List ℕ) × (first_opening ps ≡ some p) × (result ≡ (true, standing d p)))
      ⊎ ((str : List ℕ) × (first_opening ps ≡ none) × (result ≡ (false, tried d str)))

  connect_from_lem :
      (left index : ℕ) (d : AdoDatabase)
      → d.created ≡ true
      → Tries (versions left index) (connect_from opens left index a d) d
  unfolding connect_from
  connect_from_lem zero index d there = inr (d.connection_str, refl, refl)
  connect_from_lem (suc left) index d there =
      let p = mssql_name index in
      elim (Bool-cases (opens (connection_text p a))) [
        | inl e ↦ inl (p, rw (e) refl, rw (opened p d there e) refl)
        | inr e ↦ elim (connect_from_lem left (index + 1) (tried d (connection_text p a)) there) [
          | inl (q, f, ran) ↦ inl (q, rw (e) f, rw (refused p d e) ran)
          | inr (str, f, ran) ↦ inr (str, rw (e) f, rw (refused p d e) ran)
        ]
      ]

  -- The worker after all providers were tried.
  abbrev pub connected_by : AdoDatabase → Option (List ℕ) → Bool × AdoDatabase
  connected_by d none =
      (false, record d { connection_str = connection_text sqlncli a; db_name = a.name })
  connected_by d (some p) = (true, standing (record d { db_name = a.name }) p)

  first_opening-append :
      (ps qs : List (List ℕ))
      → first_opening (ps ++ qs) ≡ or_else (first_opening ps) (first_opening qs)
  first_opening-append [] qs = refl
  first_opening-append (p ∷ ps) qs = ground (arith, first_opening-append ps qs)

  -- The provider without a number is tried last.
  last_one :
      (d : AdoDatabase) (str : List ℕ)
      → d.created ≡ true
      → connect_as opens sqlncli a (tried (record d { db_name = a.name }) str)
        ≡ connected_by d (first_opening (sqlncli ∷ []))
  last_one d str there =
      let before : AdoDatabase = tried (record d { db_name = a.name }) str in
      elim (Bool-cases (opens (connection_text sqlncli a))) [
        | inl e ↦ rw (e) (opened sqlncli before there e)
        | inr e ↦ rw (e) (refused sqlncli before e)
      ]

  settle :
      (d : AdoDatabase) (vs : List (List ℕ)) (result : Bool × AdoDatabase)
      → d.created ≡ true
      → Tries vs result (record d { db_name = a.name })
      → (if result.0 then (true, result.1) else connect_as opens sqlncli a result.1)
        ≡ connected_by d (first_opening (vs ++ (sqlncli ∷ [])))
  settle d vs result there (inl (q, f, ran)) =
      rw (ran, first_opening-append vs (sqlncli ∷ []), f) refl
  settle d vs result there (inr (str, f, ran)) =
      rw (ran, first_opening-append vs (sqlncli ∷ []), f) (last_one d str there)

  -- A worker with a connection object connects through the first provider, of the ten versions in their order
  -- and then the one without a number, through which the database opens, and stands by; it fails only
  -- where the database opens through none.
  pub connect_lem :
      (d : AdoDatabase)
      → d.created ≡ true
      → connect opens a d ≡ connected_by d (first_opening providers)
  unfolding connect
  connect_lem d there =
      let named : AdoDatabase = record d { db_name = a.name } in
      settle d (versions 10 10) (connect_from opens 10 10 a named) there
        (connect_from_lem 10 10 named there)

-- `new ADODatabase` with a connection object.
abbrev pub fresh : AdoDatabase
fresh = record { created = true; state = db_stop; connection_str = []; db_name = [] }

abbrev pub copies : {A : Type 0} → ℕ → A → List A
copies zero x = []
copies (suc n) x = x ∷ copies n x

-- So many workers, each connected through the provider, or the end of the process if there is none.
abbrev pub started : (List ℕ → Bool) → Account → ℕ → Option (List ℕ) → Start (List AdoDatabase)
started opens a zero o = ok []
started opens a (suc n) none = exits
started opens a (suc n) (some p) =
    ok (copies (suc n) (standing opens a (record fresh { db_name = a.name }) p))

make_databases_lem : (n : ℕ) → make_databases true n ≡ ok (copies n fresh)
unfolding make_databases new_database
make_databases_lem zero = refl
make_databases_lem (suc n) = rw (make_databases_lem n) refl

module _ (opens : List ℕ → Bool) (a : Account) where
  run_standing :
      (n : ℕ) (p : List ℕ)
      → first_opening opens a providers ≡ some p
      → run_workers opens a (copies n fresh)
        ≡ ok (copies n (standing opens a (record fresh { db_name = a.name }) p))
  unfolding run_workers
  run_standing zero p f = refl
  run_standing (suc n) p f = rw (connect_lem opens a fresh refl, f, run_standing n p f) refl

  run_started :
      (n : ℕ) (o : Option (List ℕ))
      → first_opening opens a providers ≡ o
      → run_workers opens a (copies n fresh) ≡ started opens a n o
  unfolding run_workers
  run_started zero o f = refl
  run_started (suc n) none f = rw (connect_lem opens a fresh refl, f) refl
  run_started (suc n) (some p) f = run_standing (suc n) p f

-- The database manager starts with as many workers as its configuration asks for, each standing by and
-- connected through the first provider through which the database opens; where the database opens through
-- none, the process ends unless no worker is asked for. The configuration has the part for the database,
-- with the account and a number that is not negative, and the connection objects can be made.
pub initialize-started :
    {N : Type 0} (xml : Xml N) (opens : List ℕ → Bool) (config root : N) (leftover count : ℕ)
    (buffer : List ℕ) (a : Account)
    → part xml data_base config ≡ ok (some root)
    → int_of xml Tag.thread_count leftover root ≡ ok count
    → count < 2 ^ 31
    → read_account xml opens true buffer root ≡ ok a
    → initialize xml opens true leftover buffer config
      ≡ started opens a count (first_opening opens a providers)
unfolding initialize
initialize-started xml opens config root leftover count buffer a there counted small account =
    let asked : (if ltb count (2 ^ 31) then count else 0) ≡ count = ground arith in
    rw (initialize, there, counted, account, asked, make_databases_lem count)
      (run_started opens a count (first_opening opens a providers) refl)
