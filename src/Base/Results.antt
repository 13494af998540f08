-- ===== src/Base/Results.antt =====
-- `Result` of a value or of one error.
pub data Result {ℓ κ} (E : Type ℓ) (A : Type κ) : Type (ℓ ⊔ κ) where
  done : A → Result E A
  failed : E → Result E A
