-- ===== src/Beeper/Steps/Laws.antt =====
-- What holds of the beeper in every state that it can reach.
use ugreen_frontpanel.Base.{
  ℕ, ◌+◌, ◌≡◌, refl, Bool, true, false, List, Option, none, some, arith, ◌==◌, if◌then◌else◌, Ssize,
  codes, strncmp_eq, length, error, count, subst,
}
use ugreen_frontpanel.ProcFile.{UserBuffer, Copied, line, refused, wild, copy_line}
use ugreen_frontpanel.Ec.Ports.{Ports}
use ugreen_frontpanel.Beeper.Speaker.{switch_beeper}
use ugreen_frontpanel.Beeper.Timer.{
  Beeper, schedule, stop_timer, after_beat, with_delays, set_beeper, beeper_timer_handle,
  beeper_delay_work_func,
}
use ugreen_frontpanel.Beeper.Command.{
  either_case, timer_command, rep_command, switch_command, beeper_command, beeper_write,
}
use ugreen_frontpanel.Beeper.Steps.{
  initial, IsValid, Step, Steps, typed, expired, worked, stay, next,
}

-- What a handler leaves, where it returns.
abbrev Leaves : {W : Type 0} → Option (Beeper × W) → Type 0
Leaves none = Unit
Leaves (some s) = IsValid s.0

abbrev Answers : {W : Type 0} → Option (Ssize × Beeper × W) → Type 0
Answers none = Unit
Answers (some s) = IsValid s.1

if-Answers :
    {W : Type 0} (t : Bool) (x y : Option (Ssize × Beeper × W))
    → Answers x
    → Answers y
    → Answers (if t then x else y)
if-Answers true x y p q = p
if-Answers false x y p q = q

if-IsValid :
    (t : Bool) (x y : Ssize × Beeper) → IsValid x.1 → IsValid y.1 → IsValid (if t then x else y).1
if-IsValid true x y p q = p
if-IsValid false x y p q = q

stop_timer-IsValid : (b : Beeper) → IsValid b → IsValid (stop_timer b)
stop_timer-IsValid b h = record {
  status_is = refl;
  on_bound = h.on_bound;
  off_bound = h.off_bound;
  timer_bound = omega arith;
}

timer_command-IsValid :
    (o : Option (ℕ × ℕ)) (size : ℕ) (b : Beeper) → IsValid b → IsValid (timer_command o size b).1
unfolding timer_command
timer_command-IsValid none size b h = h
timer_command-IsValid (some (off, on)) size b h = record {
  status_is = ground (arith, h);
  on_bound = ground (arith, h);
  off_bound = ground (arith, h);
  timer_bound = ground (arith, h);
}

rep_command-IsValid :
    (o : Option (ℕ × ℕ × ℕ)) (size : ℕ) (b : Beeper) → IsValid b → IsValid (rep_command o size b).1
unfolding rep_command
rep_command-IsValid none size b h = h
rep_command-IsValid (some (times, off, on)) size b h = record {
  status_is = ground (arith, h);
  on_bound = ground (arith, h);
  off_bound = ground (arith, h);
  timer_bound = ground (arith, h);
}

after_beat-IsValid :
    (b : Beeper)
    → IsValid (record b { timer_status = 1 })
    → b.timer_status ≡ 1
    → IsValid (after_beat b)
unfolding after_beat
after_beat-IsValid b h running = record {
  status_is = ground (arith, h);
  on_bound = ground (arith, h);
  off_bound = ground (arith, h);
  timer_bound = ground (arith, h);
}

if-Leaves :
    {W : Type 0} (t : Bool) (x y : Option (Beeper × W))
    → Leaves x
    → Leaves y
    → Leaves (if t then x else y)
if-Leaves true x y p q = p
if-Leaves false x y p q = q

-- A state that is reached where a call returns.
some-Leaves :
    {W : Type 0} (o : Option W) (b : Beeper)
    → IsValid b
    → Leaves (elim o as (λ x. Option (Beeper × W)) [ none ↦ none | some w ↦ some (b, w) ])
some-Leaves none b h = tt
some-Leaves (some w) b h = h

module _ (hw : Ports) (rounds : ℕ) (product : List ℕ) where
  set_beeper-Leaves :
      (dat delay : ℕ) (b : Beeper) (w : hw.World)
      → IsValid b
      → Leaves (set_beeper hw rounds product dat delay (b, w))
  unfolding set_beeper
  set_beeper-Leaves dat delay b w h =
      if-Leaves (dat == 0) _ _ (some-Leaves (switch_beeper hw rounds product false w) b h) (
        if-Leaves (dat == 1) _ _ (some-Leaves (switch_beeper hw rounds product true w) b h) (
          if-Leaves (dat == 2) _ _
            (some-Leaves (switch_beeper hw rounds product true w)
              (record b { work = schedule delay b.work })
              (record {
                status_is = h.status_is;
                on_bound = h.on_bound;
                off_bound = h.off_bound;
                timer_bound = h.timer_bound;
              }))
            h))

  beeper_timer_handle-Leaves :
      (d : ℕ) (b : Beeper) (w : hw.World)
      → IsValid b
      → b.timer ≡ some d
      → Leaves (beeper_timer_handle hw rounds product (b, w))
  unfolding beeper_timer_handle set_beeper
  beeper_timer_handle-Leaves d b w h pending = by_switch (switch_beeper hw rounds product true w)
    where
      b1 : Beeper
      b1 = with_delays (record b { timer = none })

      b2 : Beeper
      b2 = record b1 {
        work = schedule b1.delay_on b1.work;
        timer = some (b1.delay_off + b1.delay_on);
      }

      by_switch :
          (o : Option hw.World)
          → Leaves
              (elim (elim o as (λ x. Option (Beeper × hw.World)) [
                | none ↦ none
                | some w' ↦ some (record b1 { work = schedule b1.delay_on b1.work }, w')
              ])
                as (λ x. Option (Beeper × hw.World)) [
                  | none ↦ none
                  | some (c, w') ↦
                      some (after_beat (record c { timer = some (c.delay_off + c.delay_on) }), w')
                ])
      by_switch none = tt
      by_switch (some w') =
          after_beat-IsValid b2
            (record {
              status_is = refl;
              on_bound = ground (arith, h);
              off_bound = ground (arith, h);
              timer_bound = ground (arith, h);
            })
            (ground (arith, h))

  beeper_delay_work_func-Leaves :
      (b : Beeper) (w : hw.World)
      → IsValid b
      → Leaves (beeper_delay_work_func hw rounds product (b, w))
  unfolding beeper_delay_work_func
  beeper_delay_work_func-Leaves b w h =
      some-Leaves (switch_beeper hw rounds product false w) (record b { work = none })
        (record {
          status_is = h.status_is;
          on_bound = h.on_bound;
          off_bound = h.off_bound;
          timer_bound = h.timer_bound;
        })

  switch_command-Answers :
      (size dat delay : ℕ) (b : Beeper) (w : hw.World)
      → IsValid b
      → Answers (switch_command hw rounds product size dat delay (b, w))
  unfolding switch_command
  switch_command-Answers size dat delay b w h =
      by_result (set_beeper hw rounds product dat delay (stop_timer b, w))
        (set_beeper-Leaves dat delay (stop_timer b) w (stop_timer-IsValid b h))
    where
      by_result :
          (o : Option (Beeper × hw.World))
          → Leaves o
          → Answers (elim o as (λ x. Option (Ssize × Beeper × hw.World)) [
            | none ↦ none
            | some (b', w') ↦ some (count size, b', w')
          ])
      by_result none p = tt
      by_result (some s) p = p

  module _ (scan_timer : List ℕ → Option (ℕ × ℕ)) (scan_rep : List ℕ → Option (ℕ × ℕ × ℕ)) where
    beeper_command-Answers :
        (size : ℕ) (buf : List ℕ) (b : Beeper) (w : hw.World)
        → IsValid b
        → Answers (beeper_command hw rounds product scan_timer scan_rep size buf (b, w))
    unfolding beeper_command
    beeper_command-Answers size buf b w h =
        if-Answers (either_case 6 buf (codes "booton") (codes "BOOTON")) _ _ h (
          if-Answers (either_case 7 buf (codes "bootoff") (codes "BOOTOFF")) _ _ h (
            if-Answers (either_case 3 buf (codes "on") (codes "ON")) _ _
              (switch_command-Answers size 1 0 b w h)
              (if-Answers (either_case 4 buf (codes "off") (codes "OFF")) _ _
                (switch_command-Answers size 0 0 b w h)
                (if-Answers (either_case 4 buf (codes "one") (codes "ONE")) _ _
                  (switch_command-Answers size 2 200 b w h)
                  (if-Answers (strncmp_eq 6 buf (codes "timer ")) _ _
                    (timer_command-IsValid (scan_timer buf) size b h)
                    (if-Answers (strncmp_eq 3 buf (codes "rep ")) _ _
                      (rep_command-IsValid (scan_rep buf) size b h) h))))))

    beeper_write-Answers :
        (user : UserBuffer) (b : Beeper) (w : hw.World)
        → IsValid b
        → Answers (beeper_write hw rounds product scan_timer scan_rep user (b, w))
    unfolding beeper_write
    beeper_write-Answers user b w h = by_line (copy_line 32 user)
      where
        by_line :
            (c : Copied)
            → Answers (elim c as (λ x. Option (Ssize × Beeper × hw.World)) [
              | line buf ↦
                  beeper_command hw rounds product scan_timer scan_rep
                    (length user.bytes)
                    buf
                    (b, w)
              | refused e ↦ some (error e, b, w)
              | wild ↦ some (Ssize.fault, b, w)
            ])
        by_line (line buf) = beeper_command-Answers (length user.bytes) buf b w h
        by_line (refused e) = h
        by_line wild = h

    step-IsValid :
        (s t : Beeper × hw.World)
        → Step hw rounds product scan_timer scan_rep s t
        → IsValid s.0
        → IsValid t.0
    step-IsValid _ _ (typed user r s t e) h = subst Answers e (beeper_write-Answers user s.0 s.1 h)
    step-IsValid _ _ (expired d s t pending e) h =
        subst Leaves e (beeper_timer_handle-Leaves d s.0 s.1 h pending)
    step-IsValid _ _ (worked d s t pending e) h =
        subst Leaves e (beeper_delay_work_func-Leaves s.0 s.1 h)

    Steps-IsValid :
        (s t : Beeper × hw.World)
        → Steps hw rounds product scan_timer scan_rep s t
        → IsValid s.0
        → IsValid t.0
    Steps-IsValid _ _ (stay s) h = h
    Steps-IsValid _ _ (next s t u step steps) h = Steps-IsValid t u steps (step-IsValid s t step h)

    -- In every state that the beeper reaches from the one that it is loaded with, by any sequence of
    -- commands, runs of the timer and runs of the delayed work: the status is 1 where the timer is
    -- pending and 0 where it is not (so that no command adds a timer that is pending), no delay is
    -- above 99999, and the timer is never set to more than 199998 ms.
    pub reachable-IsValid :
        (w : hw.World) (s : Beeper × hw.World)
        → Steps hw rounds product scan_timer scan_rep (initial, w) s
        → IsValid s.0
    reachable-IsValid w s steps =
        Steps-IsValid (initial, w) s steps
          (record {
            status_is = refl;
            on_bound = omega arith;
            off_bound = omega arith;
            timer_bound = omega arith;
          })
