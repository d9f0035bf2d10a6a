-- ===== src/Base/Results.antt =====
-- How a Go function returns: a value, an error, or a panic.
pub data Result {ℓ κ} (E : Type ℓ) (A : Type κ) : Type (ℓ ⊔ κ) where
  ok : A → Result E A
  err : E → Result E A
  panic : Result E A

-- `if err != nil { return err }` and what follows it
abbrev pub bind_ok {ℓ κ ι} :
    {E : Type ℓ} {A : Type κ} {B : Type ι} → Result E A → (A → Result E B) → Result E B
bind_ok (ok a) f = f a
bind_ok (err e) f = err e
bind_ok panic f = panic
