-- ===== src/Button/Reports.antt =====
-- What the input layer is told over any sequence of register values.
use ugreen_frontpanel.Base.{
  ℕ, ◌+◌, ◌≤◌, ◌≡◌, ◌⊎◌, inl, inr, refl, sym, subst, Bool, true, false, List, [], ◌∷◌, ◌++◌, arith,
  ltb, ◌==◌, if◌then◌else◌,
}
use ugreen_frontpanel.Button.Monitor.{
  Key, key_f20, key_f24, Button, Report, pin, reports_press, reports_release, pressed, released,
  monitor, monitor_all,
}
use ugreen_frontpanel.Button.Cycle.{press_tick}

-- What holds of a button between two ticks: the count stays below its limit, and a press that was
-- long enough to be reported is the last thing that was.
pub record IsValid (gt : Bool) (b : Button) : Type 0 where
  pub seen_bound : b.seen ≤ 1200
  pub was_told : press_tick gt b.code ≤ b.seen → b.last_report ≡ 1

-- The reports of one tick, at most one, where the last report was `before` and is now `after`.
abbrev Tells : ℕ → ℕ → List Report → Type 0
Tells before after [] = after ≡ before
Tells before after (r ∷ []) = (r.value ≡ after) × ((r.value ≡ 1) ⊎ ((r.value ≡ 0) × (before ≡ 1)))
Tells before after (r ∷ q ∷ rs) = ⊥

no_press :
    (gt : Bool) (k : Key) (s : ℕ)
    → reports_press gt k (s + 1) ≡ false
    → press_tick gt k ≤ s + 1
    → press_tick gt k ≤ s
unfolding reports_press
no_press true key_f20 s h = ground arith
no_press false key_f20 s h = ground arith
no_press gt key_f24 s h = ground arith

release_after_press :
    (gt : Bool) (k : Key) (s v p : ℕ) → reports_release k s v p ≡ true → press_tick gt k ≤ s
unfolding reports_release
release_after_press true key_f20 s v p h = ground arith
release_after_press false key_f20 s v p h = ground arith
release_after_press gt key_f24 s v p h = ground arith

zero_below : (gt : Bool) (k : Key) → press_tick gt k ≤ 0 → ⊥
zero_below true key_f20 h = omega arith
zero_below false key_f20 h = omega arith
zero_below gt key_f24 h = omega arith

abbrev Ticks : Bool → Button → Button × List Report → Type 0
Ticks gt b (c, out) = IsValid gt c × (c.code ≡ b.code) × Tells b.last_report c.last_report out

if-Ticks :
    (gt : Bool) (b : Button) (t : Bool) (x y : Button × List Report)
    → (t ≡ true → Ticks gt b x)
    → (t ≡ false → Ticks gt b y)
    → Ticks gt b (if t then x else y)
if-Ticks gt b true x y p q = p refl
if-Ticks gt b false x y p q = q refl

pressed-Ticks : (gt : Bool) (b : Button) → IsValid gt b → Ticks gt b (pressed gt b)
unfolding pressed
pressed-Ticks gt b h =
    if-Ticks gt b (ltb b.seen 1200) _ _
      (λ low.
        if-Ticks gt b (reports_press gt b.code (b.seen + 1)) _ _
          (λ e.
            (record { seen_bound = ground arith; was_told = λ p. refl }, refl, (refl, inl refl)))
          (λ e. (
            record {
              seen_bound = ground arith;
              was_told = λ p. h.was_told (no_press gt b.code b.seen e p);
            },
            refl,
            refl,
          )))
      (λ high. (h, refl, refl))

released-Ticks : (gt : Bool) (val : ℕ) (b : Button) → IsValid gt b → Ticks gt b (released val b)
unfolding released
released-Ticks gt val b h =
    if-Ticks gt b (reports_release b.code b.seen val b.prestate) _ _
      (λ e. (
        record { seen_bound = omega arith; was_told = λ p. absurd (zero_below gt b.code p) },
        refl,
        (refl, inr (refl, h.was_told (release_after_press gt b.code b.seen val b.prestate e))),
      ))
      (λ e. (
        record { seen_bound = omega arith; was_told = λ p. absurd (zero_below gt b.code p) },
        refl,
        refl,
      ))

with_prestate :
    (gt : Bool) (val : ℕ) (b : Button) (x : Button × List Report)
    → Ticks gt b x
    → Ticks gt b (record x.0 { prestate = val }, x.1)
with_prestate gt val b x t =
    (record { seen_bound = t.0.seen_bound; was_told = t.0.was_told }, t.1, t.2)

-- A tick, whatever the register reads, keeps the invariant and the code, and reports at most once.
monitor-Ticks : (gt : Bool) (reg : ℕ) (b : Button) → IsValid gt b → Ticks gt b (monitor gt reg b)
unfolding monitor
monitor-Ticks gt reg b h =
    if-Ticks gt b b.base _ _
      (λ mapped.
        with_prestate gt (pin b reg) b
          (if pin b reg == b.active then pressed gt b else released (pin b reg) b)
          (if-Ticks gt b (pin b reg == b.active) _ _ (λ e. pressed-Ticks gt b h)
            (λ e. released-Ticks gt (pin b reg) b h)))
      (λ unmapped. (h, refl, refl))

-- In a list of reports a release stands only where the report before it was a press; `told` is the
-- last report before the list.
abbrev pub FollowsPress : ℕ → List Report → Type 0
FollowsPress told [] = Unit
FollowsPress told (r ∷ rs) =
    ((r.value ≡ 1) ⊎ ((r.value ≡ 0) × (told ≡ 1))) × FollowsPress r.value rs

FollowsPress-append :
    (before after : ℕ) (out rest : List Report)
    → Tells before after out
    → FollowsPress after rest
    → FollowsPress before (out ++ rest)
FollowsPress-append before after [] rest t f = subst (λ n. FollowsPress n rest) t f
FollowsPress-append before after (r ∷ []) rest t f =
    (t.1, subst (λ n. FollowsPress n rest) (sym t.0) f)
FollowsPress-append before after (r ∷ q ∷ rs) rest t f = absurd t

-- From a valid state, over any sequence of register values whatever: the count of ticks never
-- passes 1200, the state stays valid, and every report is a press, or is a release and comes right
-- after the report of a press.
pub monitor_all-FollowsPress :
    (gt : Bool) (regs : List ℕ) (b : Button)
    → IsValid gt b
    → let (c, out) = monitor_all gt regs b in IsValid gt c × FollowsPress b.last_report out
unfolding monitor_all
monitor_all-FollowsPress gt [] b h = (h, tt)
monitor_all-FollowsPress gt (reg ∷ regs) b h =
    let (c, out) = monitor gt reg b in
    let tick = monitor-Ticks gt reg b h in
    let rest = monitor_all-FollowsPress gt regs c tick.0 in
    (rest.0, FollowsPress-append b.last_report c.last_report out _ tick.2 rest.1)
