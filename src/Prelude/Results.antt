-- ===== src/Prelude/Results.antt =====
-- What a call of the program ends in: Rust's `Result`, a panic, or a loop that the model's fuel
-- does not bring to its end.
use mathlib.Core.Path.{◌≡◌, refl}

pub data Outcome {ℓ κ} (E : Type ℓ) (A : Type κ) : Type (ℓ ⊔ κ) where
  ok : A → Outcome E A
  err : E → Outcome E A
  panic : Outcome E A
  out_of_fuel : Outcome E A

module _ {ℓ κ ι} {E : Type ℓ} {A : Type κ} {B : Type ι} where
  infixl 5 ◌>>=◌
  -- An abbreviation: a chain computes as soon as its first call has ended.
  abbrev pub ◌>>=◌ : Outcome E A → (A → Outcome E B) → Outcome E B
  ok a >>= f = f a
  err e >>= f = err e
  panic >>= f = panic
  out_of_fuel >>= f = out_of_fuel

  -- What a chain of calls that went well says of its parts.
  pub >>=-eq-ok :
      (run : Outcome E A) (rest : A → Outcome E B) {out : B}
      → (run >>= rest) ≡ ok out
      → (x : A) × (run ≡ ok x) × (rest x ≡ ok out)
  >>=-eq-ok out_of_fuel rest went_well = cc
  >>=-eq-ok panic rest went_well = cc
  >>=-eq-ok (err failure) rest went_well = cc
  >>=-eq-ok (ok x) rest went_well = (x, refl, went_well)

-- `map_err`
module _ {ℓ ι κ} {D : Type ℓ} {E : Type ι} {A : Type κ} where
  abbrev pub map_err : (D → E) → Outcome D A → Outcome E A
  map_err f (ok a) = ok a
  map_err f (err d) = err (f d)
  map_err f panic = panic
  map_err f out_of_fuel = out_of_fuel
