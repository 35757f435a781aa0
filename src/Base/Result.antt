-- ===== src/Base/Result.antt =====
-- Go's `(T, error)`, where one of the two is meant, and the end of a call by a run-time panic.
use mathlib.Core.Path.{◌≡◌, refl}
use mathlib.Core.Logic.{◌⊎◌, inl, inr}
use manteion_go.Base.Checks.{Error}

pub data Result {ℓ} (A : Type ℓ) : Type ℓ where
  panic : Result A
  err : Error → Result A
  ok : A → Result A

module _ {ℓ κ} {A : Type ℓ} {B : Type κ} where
  -- `x, err := m; if err != nil { return nil, err }`, and then the rest.
  infixl 5 ◌>>=◌
  abbrev pub ◌>>=◌ : Result A → (A → Result B) → Result B
  panic >>= rest = panic
  err cause >>= rest = err cause
  ok x >>= rest = rest x

  -- Where a chain succeeds, so do its parts.
  pub chain_inversion :
      (m : Result A) (rest : A → Result B) {y : B}
      → (m >>= rest) ≡ ok y
      → (x : A) × (m ≡ ok x) × (rest x ≡ ok y)
  chain_inversion panic rest h = cc
  chain_inversion (err cause) rest h = cc
  chain_inversion (ok x) rest h = (x, refl, h)

-- `if err != nil { return …, fmt.Errorf(…, err) }`
abbrev pub wrapped {ℓ} : {A : Type ℓ} → (Error → Error) → Result A → Result A
wrapped f panic = panic
wrapped f (err cause) = err (f cause)
wrapped f (ok x) = ok x

pub Result-cases {ℓ} :
    {A : Type ℓ} (r : Result A)
    → ((x : A) × (r ≡ ok x)) ⊎ (((cause : Error) × (r ≡ err cause)) ⊎ (r ≡ panic))
Result-cases panic = inr (inr refl)
Result-cases (err cause) = inr (inl (cause, refl))
Result-cases (ok x) = inl (x, refl)
