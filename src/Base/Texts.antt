-- ===== src/Base/Texts.antt =====
-- Texts that `strcmp` takes for equal.
use ugreen_frontpanel.Base.Bytes.{strcmp_eq, strncmp_eq, rest_of}
use Prim.Native.Nat.{ℕ, zero, suc}
use mathlib.Core.Path.{◌≡◌, refl}
use mathlib.Core.Bool.{true}
use mathlib.Core.List.{List, [], ◌∷◌}
use native.Mathlib.Omega.{arith}

-- They compare with a third as each other.
pub strcmp_eq_same : (p x y : List ℕ) → strcmp_eq p x ≡ true → strcmp_eq p y ≡ strcmp_eq x y
unfolding strcmp_eq
strcmp_eq_same [] [] y h = refl
strcmp_eq_same [] (b ∷ x) y h = ground arith
strcmp_eq_same (a ∷ p) [] y h = ground arith
strcmp_eq_same (a ∷ p) (b ∷ x) y h = ground (arith, strcmp_eq_same p x (rest_of y))

pub strncmp_eq_same :
    (n : ℕ) (p x y : List ℕ) → strcmp_eq p x ≡ true → strncmp_eq n p y ≡ strncmp_eq n x y
unfolding strcmp_eq strncmp_eq
strncmp_eq_same zero p x y h = refl
strncmp_eq_same (suc n) [] [] y h = refl
strncmp_eq_same (suc n) [] (b ∷ x) y h = ground arith
strncmp_eq_same (suc n) (a ∷ p) [] y h = ground arith
strncmp_eq_same (suc n) (a ∷ p) (b ∷ x) y h = ground (arith, strncmp_eq_same n p x (rest_of y))
