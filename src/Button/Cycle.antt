-- ===== src/Button/Cycle.antt =====
-- A press from its first tick to its release: what the input layer is told.
use ugreen_frontpanel.Base.{
  ℕ, suc, ◌+◌, ◌/◌, ◌%◌, ◌^◌, ◌≤◌, ◌≡◌, ◌≢◌, refl, ap, ◌∙◌, Bool, true, false, ◌&&◌, List, [], ◌∷◌,
  ◌++◌, arith, ltb, leb, ◌==◌, if◌then◌else◌, length,
}
use ugreen_frontpanel.Button.Monitor.{
  Key, key_f20, key_f24, Button, Report, pin, monitor, monitor_all,
}
use Prim.Native.Nat.{min}
use mathlib.Core.List.{append_assoc}

-- The tick of a press at which it is reported: 260 for the reset key, and for the power key the
-- first, or the hundredth on a DXP2800 GT.
abbrev pub press_tick : Bool → Key → ℕ
press_tick gt key_f24 = 260
press_tick gt key_f20 = if gt then 100 else 1

-- The ticks of a press from which its release is reported.
abbrev pub release_tick : Key → ℕ
release_tick key_f24 = 261
release_tick key_f20 = 100

abbrev pub All {ℓ} : {A : Type ℓ} → (A → Type 0) → List A → Type 0
All P [] = Unit
All P (x ∷ xs) = P x × All P xs

abbrev pub IsDown : Button → ℕ → Type 0
IsDown b reg = pin b reg ≡ b.active

abbrev pub down : Key → List Report
down k = record { key = k; value = 1 } ∷ []

abbrev pub up : Key → List Report
up k = record { key = k; value = 0 } ∷ []

abbrev after_tick : Bool → Button → Button
after_tick gt b = record b {
  seen = min 1200 (b.seen + 1);
  prestate = b.active;
  last_report = if b.seen + 1 == press_tick gt b.code then 1 else b.last_report;
}

-- One tick of a press.
monitor-down :
    (gt : Bool) (reg : ℕ) (b : Button)
    → b.base ≡ true
    → IsDown b reg
    → b.seen ≤ 1200
    → monitor gt reg b
      ≡ (after_tick gt b, if b.seen + 1 == press_tick gt b.code then down b.code else [])
unfolding monitor
monitor-down gt reg b mapped h bound = ground arith

-- A button that is held: what its state has in common at all ticks.
abbrev Held : Button → Button → Type 0
Held b c = (c.base ≡ true) × (c.active ≡ b.active) × (c.shift ≡ b.shift) × (c.code ≡ b.code)

-- The ticks of a press that is already `b.seen` ticks long.
hold :
    (gt : Bool) (regs : List ℕ) (b : Button)
    → b.base ≡ true
    → b.seen ≤ 1200
    → b.prestate ≡ b.active
    → All (IsDown b) regs
    → let (c, out) = monitor_all gt regs b in
      Held b c
      × (c.seen ≡ min 1200 (b.seen + length regs))
      × (c.prestate ≡ b.active)
      × (out ≡ (
          if ltb b.seen (press_tick gt b.code) && leb (press_tick gt b.code) (b.seen + length regs)
          then down b.code
          else []))
unfolding monitor_all
hold gt [] b mapped bound pre held = ground arith
hold gt (reg ∷ regs) b mapped bound pre held =
    let later = hold gt regs (after_tick gt b) mapped (omega arith) refl held.1 in
    rw (monitor-down gt reg b mapped held.0 bound) (ground (arith, later))

monitor_all-append :
    (gt : Bool) (xs ys : List ℕ) (b : Button)
    → monitor_all gt (xs ++ ys) b ≡ (
        let (c, out) = monitor_all gt xs b in
        let (d, rest) = monitor_all gt ys c in (d, out ++ rest))
unfolding monitor_all
monitor_all-append gt [] ys b = refl
monitor_all-append gt (x ∷ xs) ys b = rw (monitor_all-append gt xs ys (monitor gt x b).0) (
    ground (
      arith,
      append_assoc (monitor gt x b).1 (monitor_all gt xs (monitor gt x b).0).1
          (monitor_all gt ys (monitor_all gt xs (monitor gt x b).0).0).1,
    ))

-- The tick of a release, `c` being the held button `b`.
monitor-up :
    (gt : Bool) (reg : ℕ) (b c : Button)
    → Held b c
    → pin b reg ≢ b.active
    → c.prestate ≡ b.active
    → let (d, out) = monitor gt reg c in
      (d.seen ≡ 0) × (out ≡ (if leb (release_tick b.code) c.seen then up b.code else []))
unfolding monitor
monitor-up gt reg b c same h pre =
    let pins : pin c reg ≡ pin b reg = ap (λ k. reg / 2 ^ k % 2) same.2 in
    ground (arith, pins, same.0, same.1, same.3)

cycle_parts :
    (gt : Bool) (first : ℕ) (regs : List ℕ) (last : ℕ) (b : Button)
    → monitor_all gt ((first ∷ regs) ++ last ∷ []) b ≡ (
        let (start, out) = monitor gt first b in
        let (c, held) = monitor_all gt regs start in
        let (d, end) = monitor gt last c in (d, out ++ (held ++ (end ++ []))))
unfolding monitor_all
cycle_parts gt first regs last b =
    rw (monitor_all-append gt regs (last ∷ []) (monitor gt first b).0)

-- The three parts of what a press of `m + 1` ticks and its release report.
reports_join :
    (gt : Bool) (k : Key) (m : ℕ) (first held last : List Report)
    → first ≡ (if 1 == press_tick gt k then down k else [])
    → held ≡ (if ltb 1 (press_tick gt k) && leb (press_tick gt k) (1 + m) then down k else [])
    → last ≡ (if leb (release_tick k) (min 1200 (1 + m)) then up k else [])
    → first ++ (held ++ (last ++ []))
      ≡ (if leb (press_tick gt k) (suc m) then down k else [])
        ++ (if leb (release_tick k) (suc m) then up k else [])
reports_join true key_f20 m first held last p q r = rw (p, q, r) (ground arith)
reports_join false key_f20 m first held last p q r = rw (p, q, r) (ground arith)
reports_join gt key_f24 m first held last p q r = rw (p, q, r) (ground arith)

-- A press of `n` ticks, at least one, followed by a release, on a button that was up: the press is
-- reported once where `n` reaches the press tick of the key, the release is reported once where
-- `n` reaches its release tick, nothing else is reported, and the button is back at rest.
pub press_cycle :
    (gt : Bool) (first : ℕ) (regs : List ℕ) (last : ℕ) (b : Button)
    → b.base ≡ true
    → b.seen ≡ 0
    → All (IsDown b) (first ∷ regs)
    → pin b last ≢ b.active
    → let n = length (first ∷ regs) in
      let (c, out) = monitor_all gt ((first ∷ regs) ++ last ∷ []) b in
      (c.seen ≡ 0)
      × (out
          ≡ (if leb (press_tick gt b.code) n then down b.code else [])
            ++ (if leb (release_tick b.code) n then up b.code else []))
press_cycle gt first regs last b mapped fresh all_held let_go =
    let start = after_tick gt b in
    let held = hold gt regs start mapped (omega arith) refl all_held.1 in
    let c = (monitor_all gt regs start).0 in
    let tick = monitor-down gt first b mapped all_held.0 (omega arith) in
    let one : start.seen ≡ 1 = omega arith in
    let end = monitor-up gt last b c held.0 let_go held.2 in
    rw (cycle_parts gt first regs last b) (
      rw tick (
        end.0,
        reports_join gt b.code (length regs) _ _ _
            (ap (λ s. if s + 1 == press_tick gt b.code then down b.code else []) fresh)
            (held.3
              ∙ ap
                  (λ s.
                    if ltb s (press_tick gt b.code) && leb (press_tick gt b.code) (s + length regs)
                    then down b.code
                    else [])
                  one)
            (end.1
              ∙ ap (λ s. if leb (release_tick b.code) s then up b.code else [])
                  (held.1 ∙ ap (λ s. min 1200 (s + length regs)) one)),
      ))
