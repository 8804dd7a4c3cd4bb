-- ===== src/Touch/Debug/Lists.antt =====
-- Buffers that are overwritten at their start, and a test whose branches are reasoned about apart.
use ugreen_frontpanel.Base.{
  ℕ, zero, suc, ◌≤◌, ◌≡◌, refl, ap, Bool, true, false, List, [], ◌∷◌, ◌++◌, if◌then◌else◌, length,
  take, drop, get_elem?, arith,
}

pub if-cases :
    {A : Type 0} (P : A → Type 0) (b : Bool) (x y : A)
    → (b ≡ true → P x)
    → (b ≡ false → P y)
    → P (if b then x else y)
if-cases P true x y on_true on_false = on_true refl
if-cases P false x y on_true on_false = on_false refl

pub append_empty : (l : List ℕ) → l ++ [] ≡ l
append_empty [] = refl
append_empty (x ∷ l) = ap (λ t. x ∷ t) (append_empty l)

pub take-short : (n : ℕ) (l : List ℕ) → length l ≤ n → take n l ≡ l
take-short zero [] h = refl
take-short (suc n) [] h = refl
take-short zero (x ∷ l) h = absurd (omega arith)
take-short (suc n) (x ∷ l) h = ap (λ t. x ∷ t) (take-short n l (omega arith))

pub length-take-drop :
    (n : ℕ) (l bytes : List ℕ)
    → length bytes ≡ length (take n l)
    → length (bytes ++ drop n l) ≡ length l
length-take-drop zero l [] h = refl
length-take-drop zero l (b ∷ bytes) h = absurd (omega (arith, h))
length-take-drop (suc n) [] [] h = refl
length-take-drop (suc n) [] (b ∷ bytes) h = absurd (omega (arith, h))
length-take-drop (suc n) (x ∷ l) [] h = absurd (omega (arith, h))
length-take-drop (suc n) (x ∷ l) (b ∷ bytes) h =
    ap suc (length-take-drop n l bytes (omega (arith, h)))

-- Bytes at the start leave the end alone.
pub get_elem?-over :
    (n k : ℕ) (l bytes : List ℕ)
    → length bytes ≡ length (take n l)
    → n ≤ k
    → get_elem? (bytes ++ drop n l) k ≡ get_elem? l k
get_elem?-over zero k l [] h le = refl
get_elem?-over zero k l (b ∷ bytes) h le = absurd (omega (arith, h))
get_elem?-over (suc n) k [] [] h le = refl
get_elem?-over (suc n) k [] (b ∷ bytes) h le = absurd (omega (arith, h))
get_elem?-over (suc n) k (x ∷ l) [] h le = absurd (omega (arith, h))
get_elem?-over (suc n) zero (x ∷ l) (b ∷ bytes) h le = absurd (omega arith)
get_elem?-over (suc n) (suc k) (x ∷ l) (b ∷ bytes) h le =
    get_elem?-over n k l bytes (omega (arith, h)) (omega arith)

pub take-drop : (n : ℕ) (l : List ℕ) → take n l ++ drop n l ≡ l
take-drop zero l = refl
take-drop (suc n) [] = refl
take-drop (suc n) (x ∷ l) = ap (λ t. x ∷ t) (take-drop n l)
