-- ===== src/Prelude/Results.antt =====
-- Results of fallible code, with the error kept.
use mathlib.Core.Path.{◌≡◌, refl}
use mathlib.Core.Bool.{Bool, true, false}

pub data Result {ι ℓ} (Err : Type ι) (Val : Type ℓ) : Type (ι ⊔ ℓ) where
  err : Err → Result Err Val
  ok : Val → Result Err Val

infixl 5 ◌>>=◌ ◌>>◌
-- The rest of the block runs only after a success.
abbrev pub ◌>>=◌ {ι ℓ κ} :
    {Err : Type ι} {Val : Type ℓ} {Out : Type κ}
    → Result Err Val
    → (Val → Result Err Out)
    → Result Err Out
err e >>= rest = err e
ok v >>= rest = rest v

abbrev pub ◌>>◌ {ι κ} :
    {Err : Type ι} {Out : Type κ} → Result Err (Unit {0}) → Result Err Out → Result Err Out
check >> rest = check >>= λ _. rest

-- `if bad { return e }`
abbrev pub refuse_if {ι} : {Err : Type ι} → Bool → Err → Result Err (Unit {0})
refuse_if true e = err e
refuse_if false e = ok tt

pub bind-ok {ι ℓ κ} :
    {Err : Type ι} {Val : Type ℓ} {Out : Type κ} {out : Out} (first : Result Err Val)
    (rest : Val → Result Err Out)
    → (first >>= rest) ≡ ok out
    → (v : Val) × (rest v ≡ ok out) × (first ≡ ok v)
bind-ok (err e) rest h = cc
bind-ok (ok v) rest h = (v, h, refl)
