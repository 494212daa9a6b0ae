-- ===== src/Base/Results.antt =====
-- Rust's `Result`: a value, or an error of a type of the component's own.
pub data Result {ℓ κ} (A : Type ℓ) (E : Type κ) : Type (ℓ ⊔ κ) where
  ok : A → Result A E
  err : E → Result A E

-- The `?` operator.
unfoldable pub and_then {ℓ κ μ} :
    {A : Type ℓ} {B : Type κ} {E : Type μ} → Result A E → (A → Result B E) → Result B E
and_then r next = elim r [ ok a ↦ next a | err e ↦ err e ]
