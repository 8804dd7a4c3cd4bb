-- ===== src/Beeper/Timer/Laws.antt =====
-- What the timer's handler does to the beeper's state, and when a counted beep ends.
use ugreen_frontpanel.Base.{
  ℕ, zero, suc, ◌+◌, ◌≤◌, ◌<◌, ◌≡◌, ◌≢◌, refl, ◌∙◌, Bool, true, List, Option, none, some, arith,
  ◌==◌, if◌then◌else◌, Option-cases, inl, inr,
}
use ugreen_frontpanel.Ec.Ports.{Ports}
use ugreen_frontpanel.Beeper.Speaker.{switch_beeper}
use ugreen_frontpanel.Beeper.Timer.{
  Beeper, schedule, after_beat, with_delays, set_beeper, beeper_timer_handle,
}

-- The state after a beat, whatever the beeper's hardware is.
abbrev pub beat : Beeper → Beeper
beat b =
    let b1 = with_delays (record b { timer = none }) in
    after_beat
      (record b1 { work = schedule b1.delay_on b1.work; timer = some (b1.delay_off + b1.delay_on) })

-- Switching the beeper returns.
abbrev pub Switches : (hw : Ports) → ℕ → List ℕ → Type 0
Switches hw rounds product =
    (on : Bool) (w : hw.World) → switch_beeper hw rounds product on w ≢ none

module _ (hw : Ports) (rounds : ℕ) (product : List ℕ) where
  -- The timer runs out `n` times: `none` where it is not pending before one of them, or where the
  -- handler does not return.
  unfoldable pub expire : ℕ → Beeper × hw.World → Option (Beeper × hw.World)
  expire zero s = some s
  expire (suc n) s = elim s.0.timer [
    | none ↦ none
    | some d ↦ elim (beeper_timer_handle hw rounds product s) [
      | none ↦ none
      | some s' ↦ expire n s'
    ]
  ]

  pub beeper_timer_handle-beat :
      (b : Beeper) (w : hw.World)
      → Switches hw rounds product
      → (w' : hw.World) × (beeper_timer_handle hw rounds product (b, w) ≡ some (beat b, w'))
  unfolding beeper_timer_handle set_beeper
  beeper_timer_handle-beat b w switches =
      elim (Option-cases (switch_beeper hw rounds product true w)) [
        | inl hangs ↦ absurd (switches true w hangs)
        | inr (w', found) ↦ (w', rw (found, beeper_timer_handle, set_beeper) refl)
      ]

  expire-suc :
      (n d : ℕ) (b : Beeper) (w w' : hw.World)
      → b.timer ≡ some d
      → beeper_timer_handle hw rounds product (b, w) ≡ some (beat b, w')
      → expire (suc n) (b, w) ≡ expire n (beat b, w')
  unfolding expire
  expire-suc n d b w w' pending beats = rw (pending, expire) (rw beats)

-- A counted beep that has `left` beats to go.
abbrev pub IsCounting : ℕ → Beeper → Type 0
IsCounting left b =
    (b.timer_status ≡ 1)
    × (b.g_count ≡ b.count + left)
    × (1 ≤ left)
    × (1 ≤ b.delay_on)
    × (1 ≤ b.delay_off)

beat_last :
    (b : Beeper)
    → IsCounting 1 b
    → ((beat b).timer ≡ none) × ((beat b).timer_status ≡ 0) × ((beat b).count ≡ 0)
unfolding after_beat
beat_last b h = ground arith

beat_before_last :
    (left : ℕ) (b : Beeper)
    → IsCounting (suc left) b
    → 1 ≤ left
    → IsCounting left (beat b)
      × ((beat b).timer ≡ some (b.delay_off + b.delay_on))
      × ((beat b).count ≡ b.count + 1)
      × ((beat b).delay_on ≡ b.delay_on)
      × ((beat b).delay_off ≡ b.delay_off)
unfolding after_beat
beat_before_last left b h more = ground arith

module _ (hw : Ports) (rounds : ℕ) (product : List ℕ) (switches : Switches hw rounds product) where
  -- The timer is off after the last beat and pending before it.
  record IsAfter (k left : ℕ) (b : Beeper) (s : Beeper × hw.World) : Type 0 where
    timer_is : s.0.timer ≡ (if k == left then none else some (b.delay_off + b.delay_on))
    status_is : s.0.timer_status ≡ (if k == left then 0 else 1)
    count_is : s.0.count ≡ (if k == left then 0 else b.count + k)

  expire_counting :
      (k left d : ℕ) (b : Beeper) (w : hw.World)
      → IsCounting left b
      → b.timer ≡ some d
      → k < left
      → (s : Beeper × hw.World) × (expire hw rounds product (suc k) (b, w) ≡ some s)
        × IsAfter (suc k) left b s
  unfolding expire
  expire_counting k zero d b w counting pending some_left = absurd (omega arith)
  expire_counting (suc k) (suc zero) d b w counting pending some_left = absurd (omega arith)
  expire_counting zero (suc zero) d b w counting pending some_left =
      let (w', beats) = beeper_timer_handle-beat hw rounds product b w switches in
      let last = beat_last b counting in
      (
        (beat b, w'),
        expire-suc hw rounds product 0 d b w w' pending beats,
        record { timer_is = last.0; status_is = last.1; count_is = last.2 },
      )
  expire_counting zero (suc (suc left)) d b w counting pending some_left =
      let (w', beats) = beeper_timer_handle-beat hw rounds product b w switches in
      let more = beat_before_last (suc left) b counting (omega arith) in
      ((beat b, w'), expire-suc hw rounds product 0 d b w w' pending beats, ground (arith, more))
  expire_counting (suc k) (suc (suc left)) d b w counting pending some_left =
      let (w', beats) = beeper_timer_handle-beat hw rounds product b w switches in
      let more = beat_before_last (suc left) b counting (omega arith) in
      let (s, run, after) =
        expire_counting k (suc left) (b.delay_off + b.delay_on) (beat b) w' more.0 more.1
          (omega arith) in
      (
        s,
        expire-suc hw rounds product (suc k) d b w w' pending beats ∙ run,
        ground (arith, more, after),
      )

  -- On hardware whose beeper switches, with the timer pending in a counted beep that has `left`
  -- beats to go: the handler returns each of the first `k` times, and after them the timer is off,
  -- its status 0 and the count 0 where that was all, and else the timer is pending for the sum of
  -- the two delays, its status is 1 and the count has grown by `k`.
  pub expire_lem :
      (k left d : ℕ) (b : Beeper) (w : hw.World)
      → IsCounting left b
      → b.timer ≡ some d
      → 1 ≤ k
      → k ≤ left
      → (s : Beeper × hw.World) × (expire hw rounds product k (b, w) ≡ some s)
        × (s.0.timer ≡ (if k == left then none else some (b.delay_off + b.delay_on)))
        × (s.0.timer_status ≡ (if k == left then 0 else 1))
        × (s.0.count ≡ (if k == left then 0 else b.count + k))
  expire_lem zero left d b w counting pending first last = absurd (omega arith)
  expire_lem (suc k) left d b w counting pending first last =
      let (s, run, after) = expire_counting k left d b w counting pending (omega arith) in
      (s, run, after.timer_is, after.status_is, after.count_is)
