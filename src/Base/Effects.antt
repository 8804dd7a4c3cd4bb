-- ===== src/Base/Effects.antt =====
-- Code that runs against the state of the world, and the kernel's error codes.
use Prim.Native.Nat.{ℕ}

-- `Io S A` runs from a state of type `S` to a result and the state after it.
abbrev pub Io : Type 0 → Type 0 → Type 0
Io S A = S → A × S

abbrev pub pure : {S A : Type 0} → A → Io S A
pure a s = (a, s)

infixl 5 ◌>>=◌ ◌>>◌
abbrev pub ◌>>=◌ : {S A B : Type 0} → Io S A → (A → Io S B) → Io S B
◌>>=◌ m f s = let (a, s') = m s in f a s'

-- A call whose result the code ignores.
abbrev pub ◌>>◌ : {S A B : Type 0} → Io S A → Io S B → Io S B
◌>>◌ m k s = k (m s).1

-- A call that returns nothing.
abbrev pub act : {S : Type 0} → (S → S) → Io S (Unit {0})
act f s = (tt, f s)

-- The values of `errno` that the drivers return, each negated.
pub data Errno : Type 0 where
  eperm eio enomem efault ebusy enodev einval etimedout : Errno

-- An `int` that is 0 on success and `-errno` otherwise, with what success hands over.
pub data Result (A : Type 0) : Type 0 where
  ok : A → Result A
  err : Errno → Result A

abbrev pub Ret : Type 0
Ret = Result (Unit {0})

-- `ret = m; if (ret) return ret; k`
abbrev pub unless_err : {S A B : Type 0} → Io S (Result A) → (A → Io S (Result B)) → Io S (Result B)
unless_err m k s = let (r, s') = m s in elim r [ ok a ↦ k a s' | err e ↦ (err e, s') ]

-- What a `write` handler of a /proc file returns: the bytes taken, or an error. `fault` is an
-- access outside a buffer, to which C gives no meaning.
pub data Ssize : Type 0 where
  count : ℕ → Ssize
  error : Errno → Ssize
  fault : Ssize
