-- ===== src/Base/Bytes.antt =====
-- Bytes and C strings, as lists of numbers. What is read past the end of such a list is NUL.
use Prim.Native.Nat.{ℕ, zero, suc, ◌+◌, ◌-◌}
use Prim.Native.Char.{code}
use Prim.Native.String.{String}
use mathlib.Core.Bool.{Bool, true, false, ◌&&◌, ◌||◌}
use mathlib.Core.List.{List, [], ◌∷◌, ◌++◌}
use ugreen_frontpanel.Base.Tests.{leb, ◌==◌, if◌then◌else◌}
use ugreen_frontpanel.Base.Lists.{length, replicate}

abbrev pub byte : ℕ
byte = 256

-- A string literal.
abbrev pub codes : String → List ℕ
codes String.[] = []
codes (String.◌∷◌ c s) = code c ∷ codes s

abbrev pub head_or_nul : List ℕ → ℕ
head_or_nul [] = 0
head_or_nul (b ∷ bs) = b

abbrev pub rest_of : List ℕ → List ℕ
rest_of [] = []
rest_of (b ∷ bs) = bs

-- `char buf[size] = { '\0' }` after `n ≤ size` bytes were copied to its start.
abbrev pub pad : ℕ → List ℕ → List ℕ
pad size bytes = bytes ++ replicate (size - length bytes) 0

-- `tolower`, in the C locale.
abbrev pub to_lower : ℕ → ℕ
to_lower b = if leb b'A' b && leb b b'Z' then b + 32 else b

-- `strncmp(a, b, n) == 0`
unfoldable pub strncmp_eq : ℕ → List ℕ → List ℕ → Bool
strncmp_eq zero a b = true
strncmp_eq (suc n) a b =
    let rest = strncmp_eq n (rest_of a) (rest_of b) in
    if head_or_nul a == head_or_nul b then (if head_or_nul a == 0 then true else rest) else false

-- `strncasecmp(a, b, n) == 0`
unfoldable pub strncasecmp_eq : ℕ → List ℕ → List ℕ → Bool
strncasecmp_eq zero a b = true
strncasecmp_eq (suc n) a b =
    let rest = strncasecmp_eq n (rest_of a) (rest_of b) in
    if to_lower (head_or_nul a) == to_lower (head_or_nul b)
    then (if head_or_nul a == 0 then true else rest)
    else false

-- `strcmp(a, b) == 0`
unfoldable pub strcmp_eq : List ℕ → List ℕ → Bool
strcmp_eq [] b = head_or_nul b == 0
strcmp_eq (x ∷ a) b =
    let rest = strcmp_eq a (rest_of b) in
    if x == head_or_nul b then (if x == 0 then true else rest) else false

-- `strlen` finds its NUL inside the buffer.
unfoldable pub is_terminated : List ℕ → Bool
is_terminated [] = false
is_terminated (b ∷ bs) = b == 0 || is_terminated bs
