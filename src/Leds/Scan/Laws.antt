-- ===== src/Leds/Scan/Laws.antt =====
-- The search finds the first adapter that is accepted.
use ugreen_frontpanel.Base.{
  ℕ, zero, suc, ◌+◌, ◌≤◌, ◌<◌, ◌≡◌, subst, true, false, Option, none, some, arith, Bool-cases, inl,
  inr,
}
use native.Mathlib.Decide.{ℕ_discrete}
use ugreen_frontpanel.Leds.Scan.{Adapter, accepts, scan_from, scan}

abbrev pub Finds : ℕ → ℕ → (ℕ → Option Adapter) → Option ℕ → Type 0
Finds low high adapter none = (k : ℕ) → low ≤ k → k < high → accepts (adapter k) ≡ false
Finds low high adapter (some n) =
    (low ≤ n)
    × (n < high)
    × (accepts (adapter n) ≡ true)
    × ((k : ℕ) → low ≤ k → k < n → accepts (adapter k) ≡ false)

refuted :
    (i k : ℕ) (adapter : ℕ → Option Adapter)
    → accepts (adapter i) ≡ false
    → i ≤ k
    → (i + 1 ≤ k → accepts (adapter k) ≡ false)
    → accepts (adapter k) ≡ false
refuted i k adapter here low later = elim (ℕ_discrete i k) [
  | yes same ↦ subst (λ j. accepts (adapter j) ≡ false) same here
  | no other ↦ later (omega arith)
]

-- A search from the next index on, where this one is not accepted.
widen :
    (left i : ℕ) (adapter : ℕ → Option Adapter) (r : Option ℕ)
    → accepts (adapter i) ≡ false
    → Finds (i + 1) (i + 1 + left) adapter r
    → Finds i (i + suc left) adapter r
widen left i adapter none here rest =
    λ k low high. refuted i k adapter here low (λ next. rest k next (omega arith))
widen left i adapter (some n) here rest = (
  omega (arith, rest.0),
  omega (arith, rest.1),
  rest.2,
  λ k low high. refuted i k adapter here low (λ next. rest.3 k next high),
)

scan_from-Finds :
    (left i : ℕ) (adapter : ℕ → Option Adapter)
    → Finds i (i + left) adapter (scan_from left i adapter)
unfolding scan_from
scan_from-Finds zero i adapter = λ k p q. absurd (omega arith)
scan_from-Finds (suc left) i adapter = elim (Bool-cases (accepts (adapter i))) [
  | inl here ↦ rw here (omega arith, omega arith, here, λ k p q. absurd (omega arith))
  | inr not_here ↦ rw not_here (
      widen left i adapter (scan_from left (i + 1) adapter) not_here
        (scan_from-Finds left (i + 1) adapter))
]

-- The search over the adapters 0 to 98 keeps the client on the first of them that is accepted, gaps
-- and adapters that fail notwithstanding, and keeps none only where none of them is accepted.
pub scan-Finds : (adapter : ℕ → Option Adapter) → Finds 0 99 adapter (scan adapter)
unfolding scan
scan-Finds adapter = scan_from-Finds 99 0 adapter
