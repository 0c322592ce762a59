-- ===== src/Chatting/Stored.antt =====
-- The sessions in the lobby, a map in the order of its keys: ChattingServer/LobbyValue.cpp, and what the loop
-- of a broadcast meets.
use graduation_server.Common.{
  ℕ, ◌+◌, ◌≤◌, ◌<◌, ◌≡◌, ◌≢◌, ◌↔◌, refl, sym, Bool, inl, inr, true, false, none, some, List, [],
  ◌∷◌, arith, if◌then◌else◌, ◌==◌, ltb, Bool-cases, Option-cases, find, erase,
}
use graduation_server.Sessions.{Session}
use graduation_server.Chatting.{insert_ordered}

module _ {V : Type 0} where
  -- The keys rise from `lo` on.
  abbrev pub IsOrdered : ℕ → List (ℕ × V) → Type 0
  IsOrdered lo [] = Unit {0}
  IsOrdered lo ((k, v) ∷ more) = (lo ≤ k) × IsOrdered (k + 1) more

  pub IsOrdered-from : (lo hi : ℕ) (m : List (ℕ × V)) → lo ≤ hi → IsOrdered hi m → IsOrdered lo m
  IsOrdered-from lo hi [] l o = tt
  IsOrdered-from lo hi ((k, v) ∷ more) l (first, o) = (omega (arith, l, first), o)

  -- `insert` and `erase` keep the order.
  pub insert_ordered-IsOrdered :
      (lo k : ℕ) (v : V) (m : List (ℕ × V))
      → lo ≤ k
      → IsOrdered lo m
      → IsOrdered lo (insert_ordered k v m)
  unfolding insert_ordered
  insert_ordered-IsOrdered lo k v [] l o = (l, tt)
  insert_ordered-IsOrdered lo k v ((j, w) ∷ more) l (first, o) = elim (Bool-cases (j == k)) [
    | inl hit ↦ rw hit (first, o)
    | inr miss ↦ elim (Bool-cases (ltb k j)) [
      | inl below ↦ rw (miss, below) (l, (ground arith, o))
      | inr above ↦
          rw (miss, above) (first, insert_ordered-IsOrdered (j + 1) k v more (ground arith) o)
    ]
  ]

  pub erase-IsOrdered : (lo k : ℕ) (m : List (ℕ × V)) → IsOrdered lo m → IsOrdered lo (erase k m)
  unfolding erase
  erase-IsOrdered lo k [] o = tt
  erase-IsOrdered lo k ((j, w) ∷ more) (first, o) = elim (Bool-cases (j == k)) [
    | inl hit ↦ rw hit (
        IsOrdered-from lo (j + 1) (erase k more) (omega (arith, first))
          (erase-IsOrdered (j + 1) k more o))
    | inr miss ↦ rw miss (first, erase-IsOrdered (j + 1) k more o)
  ]

  -- A key below all others is not there.
  pub IsOrdered-none : (lo k : ℕ) (m : List (ℕ × V)) → k < lo → IsOrdered lo m → find k m ≡ none
  unfolding find
  IsOrdered-none lo k [] l o = refl
  IsOrdered-none lo k ((j, w) ∷ more) l (first, o) = ground (arith, IsOrdered-none (j + 1) k more)

-- A session that is there with a socket.
abbrev pub Hears : List (ℕ × Session) → ℕ → Type 0
Hears heap p = (s : Session) × (find p heap ≡ some s) × ((s.socket == 0) ≡ false)

abbrev pub hears : List (ℕ × Session) → ℕ → Bool
hears heap p = elim (find p heap) [ none ↦ false | some s ↦ if s.socket == 0 then false else true ]

hears_iff : (heap : List (ℕ × Session)) (p : ℕ) → (hears heap p ≡ true) ↔ Hears heap p
hears_iff heap p = (
  λ e. elim (Option-cases (find p heap)) [
    | inl gone ↦ absurd (never (rw (hears, gone) at e))
    | inr (s, there) ↦ elim (Bool-cases (s.socket == 0)) [
      | inl shut ↦ absurd (never (rw (hears, there, shut) at e))
      | inr open_socket ↦ (s, there, open_socket)
    ]
  ],
  λ (s, there, open_socket). rw (hears, there, open_socket) refl,
)
  where
    never : false ≢ true
    never h = cc

-- The entries whose sessions hear.
unfoldable pub heard : List (ℕ × Session) → List (ℕ × ℕ) → List (ℕ × ℕ)
heard heap [] = []
heard heap ((id, p) ∷ more) =
    let rest = heard heap more in if hears heap p then (id, p) ∷ rest else rest

pub heard-IsOrdered :
    (heap : List (ℕ × Session)) (lo : ℕ) (stored : List (ℕ × ℕ))
    → IsOrdered lo stored
    → IsOrdered lo (heard heap stored)
unfolding heard
heard-IsOrdered heap lo [] o = tt
heard-IsOrdered heap lo ((id, p) ∷ more) (first, o) = elim (Bool-cases (hears heap p)) [
  | inl e ↦ rw (heard, e) (first, heard-IsOrdered heap (id + 1) more o)
  | inr e ↦
      rw (heard, e)
        (IsOrdered-from lo (id + 1) (heard heap more) (omega (arith, first))
          (heard-IsOrdered heap (id + 1) more o))
]

-- An entry is among them exactly if it is stored and its session hears.
pub find-heard :
    (heap : List (ℕ × Session)) (lo id q : ℕ) (stored : List (ℕ × ℕ))
    → IsOrdered lo stored
    → (find id (heard heap stored) ≡ some q) ↔ ((find id stored ≡ some q) × Hears heap q)
unfolding heard find
find-heard heap lo id q [] o = (λ e. cc, λ (e, _). e)
find-heard heap lo id q ((k, p) ∷ more) (first, o) =
    let rest = find-heard heap (k + 1) id q more o in
    elim (Bool-cases (k == id)) [
      | inl hit ↦ elim (Bool-cases (hears heap p)) [
        | inl e ↦
            rw (heard, e, find, hit)
              (λ same. (same, rw (inner same) at ((hears_iff heap p).0 e)), λ (same, _). same)
        | inr e ↦
            let later : find id (heard heap more) ≡ none =
              IsOrdered-none (k + 1) id (heard heap more) (ground arith)
                (heard-IsOrdered heap (k + 1) more o) in
            rw (heard, e, later, find, hit)
              (
                λ never. cc,
                λ (same, hearing).
                    absurd (neither e ((hears_iff heap p).1 (rw (sym (inner same)) at hearing))),
              )
      ]
      | inr miss ↦ elim (Bool-cases (hears heap p)) [
        | inl e ↦ rw (heard, e, find, miss) rest
        | inr e ↦ rw (heard, e, find, miss) rest
      ]
    ]
  where
    inner : {a b : ℕ} → some a ≡ some b → a ≡ b
    inner h = cc

    neither : {b : Bool} → b ≡ false → b ≢ true
    neither h k = cc
