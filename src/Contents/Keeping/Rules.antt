-- ===== src/Contents/Keeping/Rules.antt =====
-- Actions that keep the session manager valid and bounded, with a rule for each way to build one.
use graduation_server.Common.{
  ℕ, ◌≡◌, ◌≢◌, sym, inl, inr, Bool, true, false, Option, Option-cases, none, some, if◌then◌else◌,
}
use mathlib.Core.Path.{subst}
use graduation_server.Sessions.Reachable.{IsBounded}
use graduation_server.World.{World, Action, done, fault, ◌>>=◌}

-- After every run of `m` that is defined, the sessions are valid and bounded if they were before.
pub record Keeps {S A : Type 0} (max : ℕ) (m : Action S A) : Type 0 where
  pub at :
      (w v : World S) (a : A)
      → m w ≡ some (a, v)
      → IsBounded max w.sessions
      → IsBounded max v.sessions

module _ {S A : Type 0} {max : ℕ} where
  pub Keeps-done : (a : A) → Keeps {S = S} max (done a)
  Keeps-done a = record {
    at = λ w v b e i. subst (λ (u : World S). IsBounded max u.sessions) (inner e) i;
  }
    where
      inner :
          {b c : A} {u w : World S}
          → ◌≡◌ {A = Option (A × World S)} (some (b, u)) (some (c, w))
          → u ≡ w
      inner h = cc

  pub Keeps-fault : Keeps {S = S} {A = A} max fault
  Keeps-fault = record { at = λ w v b e i. absurd (no e) }
    where
      no : {x : A × World S} → none ≢ some x
      no h = cc

  pub Keeps-if :
      (b : Bool) (m n : Action S A) → Keeps max m → Keeps max n → Keeps max (if b then m else n)
  Keeps-if true m n km kn = km
  Keeps-if false m n km kn = kn

  -- An action that leaves the sessions alone.
  pub Keeps-same :
      (m : Action S A)
      → ((w v : World S) (a : A) → m w ≡ some (a, v) → v.sessions ≡ w.sessions)
      → Keeps max m
  Keeps-same m same = record { at = λ w v a e i. subst (IsBounded max) (sym (same w v a e)) i }

module _ {S A B : Type 0} {max : ℕ} where
  pub Keeps-bind :
      (m : Action S A) (f : A → Action S B)
      → Keeps max m
      → ((a : A) → Keeps max (f a))
      → Keeps max (m >>= f)
  Keeps-bind m f km kf = record {
    at = λ w v b e i. elim (Option-cases (m w)) [
      | inl stuck ↦ absurd (no (rw (stuck, ◌>>=◌) at e))
      | inr ((a, u), ran) ↦ (kf a).at u v b (rw (ran, ◌>>=◌) at e) (km.at w u a ran i)
    ];
  }
    where
      no : {x : B × World S} → none ≢ some x
      no h = cc
