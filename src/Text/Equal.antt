-- ===== src/Text/Equal.antt =====
-- `==` of slices and strings decides equality.
use hexbuffer_proxy.Prelude.{ℕ, ◌≡◌, refl, ◌↔◌, true, List, ◌∷◌, arith}
use hexbuffer_proxy.Text.Defs.{equal}

pub equal_iff : (a b : List ℕ) → (equal a b ≡ true) ↔ (a ≡ b)
unfolding equal
equal_iff (x ∷ a) (y ∷ b) = ground (arith, equal_iff a b)
equal_iff _ _ = ground arith

pub equal_self : (a : List ℕ) → equal a a ≡ true
equal_self a = (equal_iff a a).1 refl
