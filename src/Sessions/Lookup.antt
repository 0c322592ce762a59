-- ===== src/Sessions/Lookup.antt =====
-- The session list of StaticLib1/SessionManager.cpp in order of ids, and what `session(id)` finds there.
use graduation_server.Common.{
  ℕ, ◌+◌, ◌≤◌, ◌<◌, ◌≡◌, ◌≢◌, refl, ◌⊎◌, inl, inr, true, Option, none, some, List, [], ◌∷◌, arith,
  length, find, ◌==◌, Bool-cases, if◌then◌else◌, ==_iff,
}
use graduation_server.Sessions.{Session, SessionManager, contains, search_list, session}

-- Every listed pointer is alive, and along the list the ids rise from `lo` and stay below the seed.
abbrev pub Rising : List (ℕ × Session) → ℕ → ℕ → List ℕ → Type 0
Rising heap seed lo [] = lo ≤ seed
Rising heap seed lo (p ∷ ps) =
    (s : Session) × (find p heap ≡ some s) × (lo ≤ s.id) × Rising heap seed (s.id + 1) ps

pub record IsValid (w : SessionManager) : Type 0 where
  pub ordered : Rising w.heap w.session_seed 1 w.session_list
  pub counted : w.session_count ≡ length w.session_list

pub Rising-le_seed :
    (heap : List (ℕ × Session)) (seed lo : ℕ) (ps : List ℕ) → Rising heap seed lo ps → lo ≤ seed
Rising-le_seed heap seed lo [] h = h
Rising-le_seed heap seed lo (p ∷ ps) (s, f, l, r) =
    omega (arith, Rising-le_seed heap seed (s.id + 1) ps r)

pub Rising-listed :
    (heap : List (ℕ × Session)) (seed lo : ℕ) (ps : List ℕ) (p : ℕ) (s : Session)
    → Rising heap seed lo ps
    → find p heap ≡ some s
    → contains p ps ≡ true
    → (lo ≤ s.id) × (s.id < seed)
unfolding contains
Rising-listed heap seed lo [] p s h f c = cc
Rising-listed heap seed lo (q ∷ qs) p s (t, g, l, r) f c = elim (Bool-cases (q == p)) [
  | inl hit ↦ ground (arith, Rising-le_seed heap seed (t.id + 1) qs r)
  | inr miss ↦ omega (arith, Rising-listed heap seed (t.id + 1) qs p s r f (rw miss at c))
]

pub search_list_listed :
    (heap : List (ℕ × Session)) (seed lo : ℕ) (ps : List ℕ) (p : ℕ) (s : Session)
    → Rising heap seed lo ps
    → find p heap ≡ some s
    → contains p ps ≡ true
    → search_list seed heap s.id ps ≡ some (some p)
unfolding contains search_list
search_list_listed heap seed lo [] p s h f c = cc
search_list_listed heap seed lo (q ∷ qs) p s (t, g, l, r) f c = elim (Bool-cases (q == p)) [
  | inl hit ↦ ground (arith, Rising-le_seed heap seed (t.id + 1) qs r)
  | inr miss ↦
      let rest : contains p qs ≡ true = rw miss at c in
      ground (
        arith,
        Rising-listed heap seed (t.id + 1) qs p s r f rest,
        search_list_listed heap seed (t.id + 1) qs p s r f rest,
      )
]

-- What the search answers: nothing, or a listed session with the id.
abbrev pub Finds : List (ℕ × Session) → List ℕ → ℕ → Option (Option ℕ) → Type 0
Finds heap ps id r =
    ((r ≡ some none)
      × ((p : ℕ) (s : Session) → contains p ps ≡ true → find p heap ≡ some s → s.id ≢ id))
    ⊎ ((p : ℕ) × (s : Session) × (r ≡ some (some p))
        × (contains p ps ≡ true)
        × (find p heap ≡ some s)
        × (s.id ≡ id))

search_list_step :
    (heap : List (ℕ × Session)) (seed id q : ℕ) (qs : List ℕ) (t : Session)
    → find q heap ≡ some t
    → t.id < seed
    → search_list seed heap id (q ∷ qs)
      ≡ (if t.id == id then some (some q) else search_list seed heap id qs)
unfolding search_list
search_list_step heap seed id q qs t g h = ground arith

contains_head : (q : ℕ) (qs : List ℕ) → contains q (q ∷ qs) ≡ true
unfolding contains
contains_head q qs = ground arith

contains_tail : (p q : ℕ) (qs : List ℕ) → contains p qs ≡ true → contains p (q ∷ qs) ≡ true
unfolding contains
contains_tail p q qs h = ground arith

-- Nothing in the tail, and another id at the head.
miss_all :
    (heap : List (ℕ × Session)) (id q : ℕ) (qs : List ℕ) (t : Session)
    → find q heap ≡ some t
    → t.id ≢ id
    → ((p : ℕ) (s : Session) → contains p qs ≡ true → find p heap ≡ some s → s.id ≢ id)
    → (p : ℕ) (s : Session) → contains p (q ∷ qs) ≡ true
    → find p heap ≡ some s
    → s.id ≢ id
unfolding contains
miss_all heap id q qs t g n tail p s c f = ground (arith, tail p s)

Finds-cons :
    (heap : List (ℕ × Session)) (id q : ℕ) (qs : List ℕ) (t : Session) (r : Option (Option ℕ))
    → find q heap ≡ some t
    → Finds heap qs id r
    → Finds heap (q ∷ qs) id (if t.id == id then some (some q) else r)
Finds-cons heap id q qs t r g (inl (e, absent)) = elim (Bool-cases (t.id == id)) [
  | inl hit ↦ rw hit (inr (q, t, refl, contains_head q qs, g, (==_iff t.id id).0 hit))
  | inr miss ↦ rw miss (inl (e, miss_all heap id q qs t g (ground arith) absent))
]
Finds-cons heap id q qs t r g (inr (p, s, e, c, f, k)) = elim (Bool-cases (t.id == id)) [
  | inl hit ↦ rw hit (inr (q, t, refl, contains_head q qs, g, (==_iff t.id id).0 hit))
  | inr miss ↦ rw miss (inr (p, s, e, contains_tail p q qs c, f, k))
]

search_list-Finds :
    (heap : List (ℕ × Session)) (seed lo id : ℕ) (ps : List ℕ)
    → Rising heap seed lo ps
    → Finds heap ps id (search_list seed heap id ps)
search_list-Finds heap seed lo id [] h =
    inl (unfold search_list in refl, unfold contains in λ p s c f. cc)
search_list-Finds heap seed lo id (q ∷ qs) (t, g, l, r) =
    rw
      (search_list_step heap seed id q qs t g
        (omega (arith, Rising-le_seed heap seed (t.id + 1) qs r)))
      (Finds-cons heap id q qs t _ g (search_list-Finds heap seed (t.id + 1) id qs r))

-- On a valid manager the lookup is defined. It gives the listed session with that id, and the null
-- pointer only when no listed session has it.
pub session-Finds :
    (id : ℕ) (w : SessionManager) → IsValid w → Finds w.heap w.session_list id (session id w)
unfolding session
session-Finds id w v = search_list-Finds w.heap w.session_seed 1 id w.session_list v.ordered
