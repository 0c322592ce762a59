-- ===== src/Util.antt =====
-- StaticLib1/Util.h:14-37: ranges, and the test of a sum of unsigned numbers of 32 bits.
use graduation_server.Common.{
  ℕ, ◌+◌, ◌%◌, ◌^◌, ◌≤◌, ◌<◌, ◌≡◌, ◌↔◌, Bool, true, false, arith, ltb, ◌==◌, if◌then◌else◌,
}

-- `min` and `max` of the Windows headers, on unsigned numbers of one type.
abbrev min : ℕ → ℕ → ℕ
min a b = if ltb a b then a else b

abbrev max : ℕ → ℕ → ℕ
max a b = if ltb b a then a else b

unfoldable pub fix_in_range : ℕ → ℕ → ℕ → ℕ
fix_in_range minimum x maximum = min maximum (max x minimum)

unfoldable pub is_in_range : ℕ → ℕ → ℕ → Bool
unfolding fix_in_range
is_in_range minimum x maximum = x == fix_in_range minimum x maximum

-- `original & 0x80000000`, as whether the bit is set.
abbrev has_top_bit : ℕ → Bool
has_top_bit n = if ltb n (2 ^ 31) then false else true

abbrev differ : Bool → Bool → Bool
differ true b = if b then false else true
differ false b = b

unfoldable pub is_over_flower_uint : ℕ → ℕ → Bool
is_over_flower_uint original add =
    let after = (original + add) % 2 ^ 32 in
    if differ (has_top_bit original) (has_top_bit after) then false else true

-- A number is in the range exactly if it lies between the two ends, which are in order.
pub is_in_range_iff : (lo x hi : ℕ) → lo ≤ hi → (is_in_range lo x hi ≡ true) ↔ ((lo ≤ x) × (x ≤ hi))
unfolding is_in_range fix_in_range
is_in_range_iff lo x hi h = (λ e. (ground arith, ground arith), λ b. ground arith)

-- A small sum, which does not overflow, is told to overflow.
pub is_over_flower_uint_small : (a b : ℕ) → a + b < 2 ^ 31 → is_over_flower_uint a b ≡ true
unfolding is_over_flower_uint
is_over_flower_uint_small a b h = ground arith

-- A sum of two numbers with the top bit that overflows below it is told not to overflow.
pub is_over_flower_uint_large :
    (a b : ℕ)
    → 2 ^ 31 ≤ a
    → a < 2 ^ 32
    → 2 ^ 32 ≤ a + b
    → a + b < 2 ^ 32 + 2 ^ 31
    → is_over_flower_uint a b ≡ false
unfolding is_over_flower_uint
is_over_flower_uint_large a b h k l r = ground arith
