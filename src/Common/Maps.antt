-- ===== src/Common/Maps.antt =====
-- `std::map` and `std::unordered_map` with integer keys, as association lists in key order of
-- insertion. `insert` keeps an entry that is there, as the containers' `insert` does.
use Prim.Native.Nat.{ℕ}
use mathlib.Core.Path.{◌≡◌, refl}
use mathlib.Core.Logic.{◌≢◌}
use mathlib.Core.Option.{Option, none, some}
use mathlib.Core.List.{List, [], ◌∷◌, ◌++◌}
use native.Mathlib.Omega.{arith}
use graduation_server.Common.Tests.{◌==◌, if◌then◌else◌}

module _ {ℓ} {V : Type ℓ} where
  unfoldable pub find : ℕ → List (ℕ × V) → Option V
  find k [] = none
  find k ((j, v) ∷ m) = if j == k then some v else find k m

  unfoldable pub erase : ℕ → List (ℕ × V) → List (ℕ × V)
  erase k [] = []
  erase k ((j, v) ∷ m) = if j == k then erase k m else (j, v) ∷ erase k m

  unfoldable pub insert : ℕ → V → List (ℕ × V) → List (ℕ × V)
  insert k v ((j, w) ∷ m) = if j == k then (j, w) ∷ m else (j, w) ∷ insert k v m
  insert k v [] = (k, v) ∷ []

  -- Overwrites the entry of a key that is there, and does nothing for another key.
  unfoldable pub update : ℕ → V → List (ℕ × V) → List (ℕ × V)
  update k v [] = []
  update k v ((j, w) ∷ m) = if j == k then (j, v) ∷ m else (j, w) ∷ update k v m

  abbrev pub or_else : Option V → Option V → Option V
  or_else none v = v
  or_else (some w) v = some w

  -- `insert` answers for a key only where nothing did before.
  pub find-insert :
      (k j : ℕ) (v : V) (m : List (ℕ × V))
      → find k (insert j v m) ≡ or_else (find k m) (if j == k then some v else none)
  unfolding find insert
  find-insert k j v [] = refl
  find-insert k j v ((i, w) ∷ m) = ground (arith, find-insert k j v m)

  pub find-append : (k : ℕ) (m n : List (ℕ × V)) → find k (m ++ n) ≡ or_else (find k m) (find k n)
  unfolding find
  find-append k [] n = refl
  find-append k ((i, w) ∷ m) n = ground (arith, find-append k m n)

  pub find-insert_self :
      (k : ℕ) (v : V) (m : List (ℕ × V)) → find k m ≡ none → find k (insert k v m) ≡ some v
  unfolding find insert
  find-insert_self k v [] h = ground arith
  find-insert_self k v ((i, w) ∷ m) h = ground (arith, find-insert_self k v m)

  pub find-insert_old : (k : ℕ) (v w : V) (m : List (ℕ × V)) → find k m ≡ some w → insert k v m ≡ m
  unfolding find insert
  find-insert_old k v w [] h = cc
  find-insert_old k v w ((i, x) ∷ m) h = ground (arith, find-insert_old k v w m)

  pub find-insert_ne :
      (k j : ℕ) (v : V) (m : List (ℕ × V)) → k ≢ j → find j (insert k v m) ≡ find j m
  unfolding find insert
  find-insert_ne k j v [] h = ground arith
  find-insert_ne k j v ((i, w) ∷ m) h = ground (arith, find-insert_ne k j v m h)

  pub find-erase_self : (k : ℕ) (m : List (ℕ × V)) → find k (erase k m) ≡ none
  unfolding find erase
  find-erase_self k [] = refl
  find-erase_self k ((i, w) ∷ m) = ground (arith, find-erase_self k m)

  pub find-erase_ne : (k j : ℕ) (m : List (ℕ × V)) → k ≢ j → find j (erase k m) ≡ find j m
  unfolding find erase
  find-erase_ne k j [] h = refl
  find-erase_ne k j ((i, w) ∷ m) h = ground (arith, find-erase_ne k j m h)

  pub find-update_self :
      (k : ℕ) (v w : V) (m : List (ℕ × V)) → find k m ≡ some w → find k (update k v m) ≡ some v
  unfolding find update
  find-update_self k v w [] h = cc
  find-update_self k v w ((i, x) ∷ m) h = ground (arith, find-update_self k v w m)

  pub find-update_ne :
      (k j : ℕ) (v : V) (m : List (ℕ × V)) → k ≢ j → find j (update k v m) ≡ find j m
  unfolding find update
  find-update_ne k j v [] h = refl
  find-update_ne k j v ((i, x) ∷ m) h = ground (arith, find-update_ne k j v m h)

  pub find-erase-none : (k j : ℕ) (m : List (ℕ × V)) → find k m ≡ none → find k (erase j m) ≡ none
  unfolding find erase
  find-erase-none k j [] h = refl
  find-erase-none k j ((i, w) ∷ m) h = ground (arith, find-erase-none k j m)
