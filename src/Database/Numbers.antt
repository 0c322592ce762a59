-- ===== src/Database/Numbers.antt =====
-- The digits that `%llu` prints, QueryStatement.cpp:73-76.
use graduation_server.Common.{
  ℕ, zero, suc, ◌+◌, ◌*◌, ◌-◌, ◌/◌, ◌%◌, ◌^◌, ◌≤◌, ◌<◌, ◌≡◌, ◌≢◌, refl, ◌∙◌, inl, inr, List, [],
  ◌∷◌, ◌++◌, arith, length, length-append, All, All-append, ltb, Bool-cases,
}
use native.Mathlib.Nat.{pow-suc}
use graduation_server.Database.{decimal}
use graduation_server.Database.Quoting.{IsPlain}

-- The number that digits stand for, behind a number that is read already.
abbrev pub number_of : ℕ → List ℕ → ℕ
number_of before [] = before
number_of before (c ∷ cs) = number_of (before * 10 + (c - 48)) cs

number_of-append :
    (before : ℕ) (cs ds : List ℕ) → number_of before (cs ++ ds) ≡ number_of (number_of before cs) ds
number_of-append before [] ds = refl
number_of-append before (c ∷ cs) ds = number_of-append (before * 10 + (c - 48)) cs ds

-- The digits of a number that has no more of them than the fuel stand for it.
pub number_of-decimal : (fuel n : ℕ) → n < 10 ^ fuel → number_of 0 (decimal fuel n) ≡ n
unfolding decimal
number_of-decimal zero n h = omega (arith, h)
number_of-decimal (suc fuel) n h = elim (Bool-cases (ltb n 10)) [
  | inl e ↦ ground (arith, e)
  | inr e ↦
      let small : n / 10 < 10 ^ fuel = omega (arith, h, pow-suc 10 fuel) in
      rw (e) (
        number_of-append 0 (decimal fuel (n / 10)) ((48 + n % 10) ∷ [])
        ∙ rw (number_of-decimal fuel (n / 10) small) (omega arith))
]

no_quote : (fuel n : ℕ) → All (λ c. c ≢ 39) (decimal fuel n)
unfolding decimal
no_quote zero n = tt
no_quote (suc fuel) n = elim (Bool-cases (ltb n 10)) [
  | inl e ↦ rw (e) ((λ f. omega (arith, f)), tt)
  | inr e ↦ rw (e) (
      All-append (λ c. c ≢ 39) (decimal fuel (n / 10)) ((48 + n % 10) ∷ []) (no_quote fuel (n / 10))
        ((λ f. omega (arith, f)), tt))
]

few_digits : (fuel n : ℕ) → length (decimal fuel n) ≤ fuel
unfolding decimal
few_digits zero n = omega arith
few_digits (suc fuel) n = elim (Bool-cases (ltb n 10)) [
  | inl e ↦ rw (e) (omega arith)
  | inr e ↦ rw (e) (
      omega (
        arith,
        few_digits fuel (n / 10),
        length-append (decimal fuel (n / 10)) ((48 + n % 10) ∷ []),
      ))
]

pub decimal-IsPlain : (n : ℕ) → IsPlain (decimal 20 n)
decimal-IsPlain n = record { no_quote = no_quote 20 n; short = omega (arith, few_digits 20 n) }
