-- ===== src/Common/Loops.antt =====
-- What a loop that counts its passes comes to.
pub data Loop {ℓ} (A : Type ℓ) : Type ℓ where
  ended : A → Loop A
  aborted running : Loop A
