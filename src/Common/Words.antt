-- ===== src/Common/Words.antt =====
-- Fixed-width integers in memory, little endian, and byte arrays with their loads and stores.
use Prim.Native.Nat.{ℕ, zero, suc, ◌+◌, ◌-◌, ◌*◌, ◌/◌, ◌%◌, ◌^◌, ◌≤◌, ◌<◌}
use mathlib.Core.Path.{◌≡◌, refl, ap, ap₂, ◌∙◌}
use mathlib.Core.List.{List, [], ◌∷◌, ◌++◌}
use native.Mathlib.Omega.{arith}
use graduation_server.Common.Tests.{ltb, ◌==◌, if◌then◌else◌}
use graduation_server.Common.Lists.{length}

-- The `w` bytes of an unsigned bit pattern, and back.
unfoldable pub le_bytes : ℕ → ℕ → List ℕ
le_bytes zero v = []
le_bytes (suc w) v = (v % 256) ∷ le_bytes w (v / 256)

unfoldable pub le_value : List ℕ → ℕ
le_value [] = 0
le_value (b ∷ bs) = b + 256 * le_value bs

pub length-le_bytes : (w v : ℕ) → length (le_bytes w v) ≡ w
unfolding le_bytes
length-le_bytes zero v = refl
length-le_bytes (suc w) v = ap suc (length-le_bytes w (v / 256))

pub le_value-le_bytes : (w v : ℕ) → v < 256 ^ w → le_value (le_bytes w v) ≡ v
unfolding le_bytes le_value
le_value-le_bytes zero v h = omega arith
le_value-le_bytes (suc w) v h = omega (arith, le_value-le_bytes w (v / 256) (omega arith))

-- An array of bytes is a function from indices; its length is the business of its owner.
abbrev pub Bytes : Type 0
Bytes = ℕ → ℕ

abbrev pub set_byte : Bytes → ℕ → ℕ → Bytes
set_byte a i b j = if i == j then b else a j

unfoldable pub load : Bytes → ℕ → ℕ → List ℕ
load a i zero = []
load a i (suc n) = a i ∷ load a (i + 1) n

unfoldable pub store : Bytes → ℕ → List ℕ → Bytes
store a i [] = a
store a i (b ∷ bs) = store (set_byte a i b) (i + 1) bs

pub length-load : (a : Bytes) (i n : ℕ) → length (load a i n) ≡ n
unfolding load
length-load a i zero = refl
length-load a i (suc n) = ap suc (length-load a (i + 1) n)

pub store_below : (a : Bytes) (i : ℕ) (bs : List ℕ) (j : ℕ) → j < i → store a i bs j ≡ a j
unfolding store
store_below a i [] j h = refl
store_below a i (b ∷ bs) j h = ground (arith, store_below (set_byte a i b) (i + 1) bs j)

pub store_above :
    (a : Bytes) (i : ℕ) (bs : List ℕ) (j : ℕ) → i + length bs ≤ j → store a i bs j ≡ a j
unfolding store
store_above a i [] j h = refl
store_above a i (b ∷ bs) j h = ground (arith, store_above (set_byte a i b) (i + 1) bs j)

pub load-store_below :
    (a : Bytes) (i : ℕ) (bs : List ℕ) (j n : ℕ) → j + n ≤ i → load (store a i bs) j n ≡ load a j n
unfolding load
load-store_below a i bs j zero h = refl
load-store_below a i bs j (suc n) h =
    ap₂ ◌∷◌ (store_below a i bs j (omega arith)) (load-store_below a i bs (j + 1) n (omega arith))

pub load-store : (a : Bytes) (i : ℕ) (bs : List ℕ) → load (store a i bs) i (length bs) ≡ bs
unfolding load store
load-store a i [] = refl
load-store a i (b ∷ bs) =
    ap₂ ◌∷◌ (store_below (set_byte a i b) (i + 1) bs i (omega arith) ∙ ground arith)
      (load-store (set_byte a i b) (i + 1) bs)

pub load-add : (a : Bytes) (i m n : ℕ) → load a i (m + n) ≡ load a i m ++ load a (i + m) n
unfolding load
load-add a i zero n = ground (arith, ap (λ (k : ℕ). load a k n) (zero_right i))
  where
    zero_right : (i : ℕ) → i ≡ i + 0
    zero_right i = omega arith
load-add a i (suc m) n = rw (regroup, shift) (ap (◌∷◌ (a i)) (load-add a (i + 1) m n))
  where
    regroup : suc m + n ≡ suc (m + n)
    regroup = omega arith

    shift : i + suc m ≡ i + 1 + m
    shift = omega arith

-- A store behind the first `i` bytes keeps them and adds its own.
pub load-store_behind :
    (a : Bytes) (i : ℕ) (bs : List ℕ) → load (store a i bs) 0 (i + length bs) ≡ load a 0 i ++ bs
load-store_behind a i bs =
    load-add (store a i bs) 0 i (length bs)
    ∙ ap₂ ◌++◌ (load-store_below a i bs 0 i (omega arith)) (rw zero_left (load-store a i bs))
  where
    zero_left : 0 + i ≡ i
    zero_left = omega arith

-- Where the loaded bytes begin with `bs`, a shorter load gives these, and the rest stands behind.
pub load_split :
    (a : Bytes) (i n : ℕ) (bs rest : List ℕ)
    → load a i n ≡ bs ++ rest
    → (load a i (length bs) ≡ bs)
      × (load a (i + length bs) (n - length bs) ≡ rest)
      × (length bs ≤ n)
unfolding load
load_split a i n [] rest e = (refl, ap₂ (load a) (omega arith) (omega arith) ∙ e, omega arith)
load_split a i zero (b ∷ bs) rest e = cc
load_split a i (suc n) (b ∷ bs) rest e =
    let (front, back, fits) = load_split a (i + 1) n bs rest (tail_eq e) in
    (
      ap₂ ◌∷◌ (head_eq e) front,
      ap₂ (load a) (omega arith) (omega arith) ∙ back,
      omega (arith, fits),
    )
  where
    head_eq : {x y : ℕ} {xs ys : List ℕ} → x ∷ xs ≡ y ∷ ys → x ≡ y
    head_eq h = cc

    tail_eq : {x y : ℕ} {xs ys : List ℕ} → x ∷ xs ≡ y ∷ ys → xs ≡ ys
    tail_eq h = cc

-- The bits of an `int` in 64 bits.
abbrev pub sign_extend : ℕ → ℕ
sign_extend v = if ltb v (2 ^ 31) then v else v + (2 ^ 64 - 2 ^ 32)
