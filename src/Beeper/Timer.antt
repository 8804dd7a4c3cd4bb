-- ===== src/Beeper/Timer.antt =====
-- The beeper's state and its timer in packages/ugreen-sio/ug_sataio_beeper.c: set_beeper,
-- beeperTimerHandle and beeper_delay_work_func.
pub mod Laws
use ugreen_frontpanel.Base.{
  ℕ, zero, suc, ◌+◌, Bool, true, false, ◌&&◌, ◌||◌, not, List, Option, none, some, ltb, ◌==◌,
  if◌then◌else◌,
}
use ugreen_frontpanel.Ec.Ports.{Ports}
use ugreen_frontpanel.Beeper.Speaker.{switch_beeper}

-- The variables of the file and of beeperTimerHandle, and what the kernel holds for it: `timer` is
-- the pending timer's time to run in ms, and `work` that of the pending delayed work.
pub record Beeper : Type 0 where
  pub timer_status : ℕ
  pub delay_off : ℕ
  pub delay_on : ℕ
  pub g_count : ℕ
  pub count : ℕ
  pub timer : Option ℕ
  pub work : Option ℕ

-- `schedule_delayed_work` leaves work that is pending alone.
abbrev pub schedule : ℕ → Option ℕ → Option ℕ
schedule delay none = some delay
schedule delay (some pending) = some pending

-- `del_timer(&beeper_timer); timerStatus = 0;`
abbrev pub stop_timer : Beeper → Beeper
stop_timer b = record b { timer = none; timer_status = 0 }

-- The end of beeperTimerHandle.
unfoldable pub after_beat : Beeper → Beeper
after_beat b =
    if b.g_count == 0
    then b
    else if b.g_count == b.count + 1
    then record b { timer = none; timer_status = 0; count = 0 }
    else record b { count = b.count + 1 }

abbrev pub with_delays : Beeper → Beeper
with_delays b =
    if ltb b.delay_on 1 || ltb b.delay_off 1
    then record b { delay_on = 500; delay_off = 2000 }
    else b

-- The state is that of the file and that of the world. `rounds` is the limit of `write_rounds`;
-- `none` is a handler that has not returned by then.
module _ (hw : Ports) (rounds : ℕ) (product : List ℕ) where
  unfoldable pub set_beeper : ℕ → ℕ → Beeper × hw.World → Option (Beeper × hw.World)
  set_beeper dat delay (b, w) =
      if dat == 0
      then elim (switch_beeper hw rounds product false w) [ none ↦ none | some w' ↦ some (b, w') ]
      else if dat == 1
      then elim (switch_beeper hw rounds product true w) [ none ↦ none | some w' ↦ some (b, w') ]
      else if dat == 2
      then (elim (switch_beeper hw rounds product true w) [
        | none ↦ none
        | some w' ↦ some (record b { work = schedule delay b.work }, w')
      ])
      else some (b, w)

  -- The timer's handler. The kernel has taken the timer off when it runs.
  unfoldable pub beeper_timer_handle : Beeper × hw.World → Option (Beeper × hw.World)
  unfolding after_beat
  beeper_timer_handle (b, w) =
      let b1 = with_delays (record b { timer = none }) in
      elim (set_beeper 2 b1.delay_on (b1, w)) [
        | none ↦ none
        | some (b2, w') ↦
            some (after_beat (record b2 { timer = some (b2.delay_off + b2.delay_on) }), w')
      ]

  -- The delayed work, which is pending no more when it runs.
  unfoldable pub beeper_delay_work_func : Beeper × hw.World → Option (Beeper × hw.World)
  beeper_delay_work_func (b, w) = elim (switch_beeper hw rounds product false w) [
    | none ↦ none
    | some w' ↦ some (record b { work = none }, w')
  ]
