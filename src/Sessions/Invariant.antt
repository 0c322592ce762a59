-- ===== src/Sessions/Invariant.antt =====
-- What every call of StaticLib1/SessionManager.cpp keeps: live sessions in order of ids, and the count.
use graduation_server.Common.{
  ℕ, suc, ◌+◌, ◌%◌, ◌^◌, ◌≤◌, ◌<◌, ◌≡◌, ◌≢◌, refl, ◌∙◌, Bool, true, false, some, List, [], ◌∷◌,
  ◌++◌, arith, length, length-append, find, update, find-update_self, find-update_ne, find-erase_ne,
  ◌==◌, Bool-cases, inl, inr, Option-cases,
}
use graduation_server.Sessions.{
  Session, SessionManager, new_manager, contains, remove, add_session, close_session, session,
}
use graduation_server.Sessions.Lookup.{Rising, IsValid, Rising-listed, search_list_listed}
use graduation_server.Sessions.Closing.{
  without, close_session_lem, contains-append, contains-remove,
}

new_manager-IsValid : (max : ℕ) → IsValid (new_manager max)
new_manager-IsValid max = record { ordered = omega arith; counted = refl }

-- Changes of the heap off the list do not matter.
Rising-agree :
    (h k : List (ℕ × Session)) (seed lo : ℕ) (ps : List ℕ)
    → ((q : ℕ) → contains q ps ≡ true → find q k ≡ find q h)
    → Rising h seed lo ps
    → Rising k seed lo ps
unfolding contains
Rising-agree h k seed lo [] same r = r
Rising-agree h k seed lo (p ∷ ps) same (s, f, l, r) = (
  s,
  same p (ground arith) ∙ f,
  l,
  Rising-agree h k seed (s.id + 1) ps (λ q c. same q (ground arith)) r,
)

Rising-append :
    (h : List (ℕ × Session)) (seed above lo : ℕ) (ps : List ℕ) (p : ℕ) (s : Session)
    → find p h ≡ some s
    → s.id ≡ seed
    → seed < above
    → Rising h seed lo ps
    → Rising h above lo (ps ++ (p ∷ []))
Rising-append h seed above lo [] p s f e l r = (s, f, omega arith, omega arith)
Rising-append h seed above lo (q ∷ qs) p s f e l (t, g, k, r) =
    (t, g, k, Rising-append h seed above (t.id + 1) qs p s f e l r)

Rising-lower :
    (h : List (ℕ × Session)) (seed lo hi : ℕ) (ps : List ℕ)
    → lo ≤ hi
    → Rising h seed hi ps
    → Rising h seed lo ps
Rising-lower h seed lo hi [] l r = omega arith
Rising-lower h seed lo hi (p ∷ ps) l (s, f, k, r) = (s, f, omega arith, r)

Rising-remove :
    (h : List (ℕ × Session)) (seed lo p : ℕ) (ps : List ℕ)
    → Rising h seed lo ps
    → Rising h seed lo (remove p ps)
unfolding remove
Rising-remove h seed lo p [] r = r
Rising-remove h seed lo p (q ∷ qs) (t, g, k, r) = elim (Bool-cases (q == p)) [
  | inl hit ↦
      rw hit
        (Rising-lower h seed lo (t.id + 1) _ (omega arith) (Rising-remove h seed (t.id + 1) p qs r))
  | inr miss ↦ rw miss (t, g, k, Rising-remove h seed (t.id + 1) p qs r)
]

remove_absent : (p : ℕ) (ps : List ℕ) → contains p ps ≡ false → remove p ps ≡ ps
unfolding contains remove
remove_absent p [] h = refl
remove_absent p (q ∷ qs) h = ground (arith, remove_absent p qs)

contains-remove_ne : (p q : ℕ) (ps : List ℕ) → contains q (remove p ps) ≡ true → p ≢ q
unfolding contains remove
contains-remove_ne p q [] h = cc
contains-remove_ne p q (x ∷ xs) h = ground (arith, contains-remove_ne p q xs)

-- A listed pointer stands on the list once.
length-remove :
    (h : List (ℕ × Session)) (seed lo p : ℕ) (ps : List ℕ) (s : Session)
    → Rising h seed lo ps
    → find p h ≡ some s
    → contains p ps ≡ true
    → length (remove p ps) + 1 ≡ length ps
unfolding contains remove
length-remove h seed lo p [] s r f c = cc
length-remove h seed lo p (q ∷ qs) s (t, g, k, r) f c = elim (Bool-cases (q == p)) [
  | inl hit ↦ elim (Bool-cases (contains p qs)) [
    | inl again ↦ ground (arith, Rising-listed h seed (t.id + 1) qs p s r f again)
    | inr once ↦ ground (arith, remove_absent p qs once)
  ]
  | inr miss ↦ ground (arith, length-remove h seed (t.id + 1) p qs s r f)
]

abbrev added : ℕ → Session → SessionManager → SessionManager
added p s w = record w {
  heap = update p (record s { id = w.session_seed }) w.heap;
  session_list = w.session_list ++ (p ∷ []);
  session_count = w.session_count + 1;
  session_seed = (w.session_seed + 1) % 2 ^ 64;
}

add_session-added :
    (p : ℕ) (w v : SessionManager)
    → add_session p w ≡ some (true, v)
    → (s : Session) × (find p w.heap ≡ some s)
      × (contains p w.session_list ≡ false)
      × (v ≡ added p s w)
unfolding add_session
add_session-added p w v e = elim (Option-cases (find p w.heap)) [
  | inl fault ↦ absurd (ground (arith, fault))
  | inr (s, f) ↦ (s, f, ground arith, ground (arith, f))
]

listed_ne : (p q : ℕ) (ps : List ℕ) → contains p ps ≡ false → contains q ps ≡ true → p ≢ q
listed_ne p q ps c d e = cc

added_ordered :
    (p : ℕ) (s : Session) (w : SessionManager)
    → IsValid w
    → w.session_seed + 1 < 2 ^ 64
    → find p w.heap ≡ some s
    → contains p w.session_list ≡ false
    → Rising (added p s w).heap (added p s w).session_seed 1 (added p s w).session_list
added_ordered p s w i small f c =
    let fresh : Session = record s { id = w.session_seed } in
    Rising-append _ w.session_seed _ 1 w.session_list p fresh (find-update_self p fresh s w.heap f)
      refl (omega arith)
      (Rising-agree w.heap _ w.session_seed 1 w.session_list
        (λ q d. find-update_ne p q fresh w.heap (listed_ne p q w.session_list c d)) i.ordered)

-- On a valid manager whose seed does not wrap, a successful `addSession` gives the object the next
-- id, leaves the manager valid, and the lookup by that id finds the object.
pub add_session_valid :
    (p : ℕ) (w v : SessionManager)
    → IsValid w
    → w.session_seed + 1 < 2 ^ 64
    → add_session p w ≡ some (true, v)
    → IsValid v × (session w.session_seed v ≡ some (some p))
unfolding session
add_session_valid p w v i small e =
    let (s, f, c, made) = add_session-added p w v e in
    let ordered = added_ordered p s w i small f c in
    rw made (
      record {
        ordered = ordered;
        counted = omega (arith, i.counted, length-append w.session_list (p ∷ []));
      },
      search_list_listed _ _ 1 (w.session_list ++ (p ∷ [])) p (record s { id = w.session_seed })
          ordered (find-update_self p _ s w.heap f) (contains-append p w.session_list),
    )

without-IsValid :
    (p : ℕ) (w : SessionManager) (s : Session)
    → IsValid w
    → find p w.heap ≡ some s
    → contains p w.session_list ≡ true
    → IsValid (without p w)
without-IsValid p w s i f c = record {
  ordered =
      Rising-agree w.heap _ w.session_seed 1 (remove p w.session_list)
        (λ q d. find-erase_ne p q w.heap (contains-remove_ne p q w.session_list d))
        (Rising-remove w.heap w.session_seed 1 p w.session_list i.ordered);
  counted =
      omega
        (arith, i.counted, length-remove w.heap w.session_seed 1 p w.session_list s i.ordered f c);
}

-- Closing an object that is alive keeps a valid manager valid and leaves the object unlisted; the
-- answer is whether it was listed.
pub close_session_valid :
    (depth p : ℕ) (w v : SessionManager) (s : Session) (b : Bool)
    → IsValid w
    → find p w.heap ≡ some s
    → close_session (suc (suc depth)) p w ≡ some (b, v)
    → IsValid v × (contains p v.session_list ≡ false) × (b ≡ contains p w.session_list)
close_session_valid depth p w v s b i f e =
    let closed = close_session_lem depth p w s f in
    elim (Bool-cases (contains p w.session_list)) [
      | inl c ↦
          let made : v ≡ without p w = ground (arith, closed) in
          let told : b ≡ contains p w.session_list = ground (arith, closed) in
          (rw made (without-IsValid p w s i f c), rw made (contains-remove p w.session_list), told)
      | inr c ↦
          let made : v ≡ w = ground (arith, closed) in
          let told : b ≡ contains p w.session_list = ground (arith, closed) in
          (rw made i, rw made c, told)
    ]

-- `addSession` keeps a count that is at most one above the maximum at most one above it.
pub add_session-le_max :
    (p : ℕ) (w v : SessionManager) (b : Bool)
    → w.session_count ≤ w.max_connection + 1
    → add_session p w ≡ some (b, v)
    → (v.session_count ≤ v.max_connection + 1) × (v.max_connection ≡ w.max_connection)
unfolding add_session
add_session-le_max p w v b h e = ground arith

-- A manager that already holds its maximum takes one more object that is alive and not listed.
pub add_session_over :
    (p : ℕ) (w : SessionManager) (s : Session)
    → contains p w.session_list ≡ false
    → find p w.heap ≡ some s
    → w.session_count ≡ w.max_connection
    → (v : SessionManager) × (add_session p w ≡ some (true, v))
      × (v.session_count ≡ v.max_connection + 1)
unfolding add_session
add_session_over p w s c f e = (
  record w {
    heap = update p (record s { id = w.session_seed }) w.heap;
    session_list = w.session_list ++ (p ∷ []);
    session_count = w.session_count + 1;
    session_seed = (w.session_seed + 1) % 2 ^ 64;
  },
  ground arith,
  omega arith,
)
