-- ===== src/Prelude/Result.antt =====
-- A call that may raise: the value, or the exception.

pub data Result {ℓ κ} (E : Type ℓ) (A : Type κ) : Type (ℓ ⊔ κ) where
  ok : A → Result E A
  err : E → Result E A
