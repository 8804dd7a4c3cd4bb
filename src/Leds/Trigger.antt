-- ===== src/Leds/Trigger.antt =====
-- The LED triggers in packages/ugreen-leds-mcu: ledtrig-breath-ht32f52231.c,
-- ledtrig-timer2-ht32f52231.c and ledtrig-normal-ht32f52231.c. The LED core of the kernel is a
-- parameter.
pub mod Laws
use ugreen_frontpanel.Base.{
  ℕ, zero, suc, ◌+◌, ◌-◌, Bool, true, false, List, [], ◌∷◌, Option, none, some, if◌then◌else◌,
  codes, Errno, enomem, Result, ok, err, Ret, Ssize, count, error,
}

pub record LedCore : Type 1 where
  pub World : Type 0
  -- `led_blink_set(led_cdev, &on, &off)`: the two delays after the call.
  pub led_blink_set : ℕ → ℕ → World → ℕ × ℕ × World
  pub led_set_brightness : ℕ → World → World
  -- `flush_work(&led_cdev->set_brightness_work)`
  pub flush_work : World → World
  pub msleep : ℕ → World → World
  -- `led_get_default_pattern`: the numbers of the pattern, `none` for NULL.
  pub led_get_default_pattern : World → Option (List ℕ) × World
  -- Whether `kzalloc` gives memory.
  pub kzalloc : World → Bool × World

pub data Trigger : Type 0 where
  breath timer2 normal : Trigger

abbrev pub name_of : Trigger → List ℕ
name_of breath = codes "breath"
name_of timer2 = codes "timer2"
name_of normal = codes "normal"

-- What a trigger reads and writes of `struct led_classdev`, `init_default` being the flag
-- LED_INIT_DEFAULT_TRIGGER, with the blocks of trigger data that are allocated.
pub record LedClass : Type 0 where
  pub blink_delay_on : ℕ
  pub blink_delay_off : ℕ
  pub init_default : Bool
  pub allocated : ℕ

module _ (core : LedCore) where
  open core use {World, led_blink_set, led_set_brightness, flush_work, msleep}

  -- The delays of the device through `led_blink_set`.
  abbrev pub blink : LedClass × World → LedClass × World
  blink (led, w) =
      let (on, off, w') = led_blink_set led.blink_delay_on led.blink_delay_off w in
      (record led { blink_delay_on = on; blink_delay_off = off }, w')

  -- `kstrtoul` gives the number, or the error that the handler returns.
  unfoldable pub led_delay_on_store :
      (List ℕ → Result ℕ) → List ℕ → ℕ → LedClass × World → Ssize × LedClass × World
  led_delay_on_store kstrtoul buf size (led, w) = elim (kstrtoul buf) [
    | err e ↦ (error e, led, w)
    | ok state ↦
        let (on, off, w') = led_blink_set state led.blink_delay_off w in
        (count size, record led { blink_delay_on = on; blink_delay_off = off }, w')
  ]

  unfoldable pub led_delay_off_store :
      (List ℕ → Result ℕ) → List ℕ → ℕ → LedClass × World → Ssize × LedClass × World
  led_delay_off_store kstrtoul buf size (led, w) = elim (kstrtoul buf) [
    | err e ↦ (error e, led, w)
    | ok state ↦
        let (on, off, w') = led_blink_set led.blink_delay_on state w in
        (count size, record led { blink_delay_on = on; blink_delay_off = off }, w')
  ]

  -- pattern_init on the pattern that it was given.
  abbrev pub take_pattern : Option (List ℕ) → LedClass → LedClass
  take_pattern (some (on ∷ off ∷ [])) led = record led {
    blink_delay_on = on;
    blink_delay_off = off;
  }
  take_pattern _ led = led

  unfoldable pub pattern_init : LedClass × World → LedClass × World
  pattern_init (led, w) =
      let (pattern, w') = core.led_get_default_pattern w in (take_pattern pattern led, w')

  -- The default pattern, once.
  unfoldable pub init_once : LedClass × World → LedClass × World
  unfolding pattern_init
  init_once (led, w) =
      if led.init_default
      then (let (led', w') = pattern_init (led, w) in (record led' { init_default = false }, w'))
      else (led, w)

  unfoldable pub breath_trig_activate : LedClass × World → Ret × LedClass × World
  unfolding init_once
  breath_trig_activate (led, w) =
      let (given, w') = core.kzalloc w in
      if given
      then (let (led1, w1) = init_once (record led { allocated = led.allocated + 1 }, w') in
          let (led2, w2) = blink (led1, msleep 30 (flush_work w1)) in (ok tt, led2, w2))
      else (err enomem, led, w')

  unfoldable pub breath_trig_deactivate : LedClass × World → LedClass × World
  breath_trig_deactivate (led, w) =
      (record led { allocated = led.allocated - 1 }, led_set_brightness 0 w)

  -- Without the flush of the work.
  unfoldable pub timer2_trig_activate : LedClass × World → Ret × LedClass × World
  unfolding init_once
  timer2_trig_activate (led, w) =
      let (given, w') = core.kzalloc w in
      if given
      then (let (led1, w1) = init_once (record led { allocated = led.allocated + 1 }, w') in
          let (led2, w2) = blink (led1, msleep 30 w1) in (ok tt, led2, w2))
      else (err enomem, led, w')

  -- The LED is not switched off.
  unfoldable pub timer2_trig_deactivate : LedClass × World → LedClass × World
  timer2_trig_deactivate (led, w) = (record led { allocated = led.allocated - 1 }, w)

  -- Without trigger data, and without the pause.
  unfoldable pub normal_trig_activate : LedClass × World → Ret × LedClass × World
  unfolding init_once
  normal_trig_activate s = let (led, w) = blink (init_once s) in (ok tt, led, w)

  unfoldable pub normal_trig_deactivate : LedClass × World → LedClass × World
  normal_trig_deactivate (led, w) = (led, led_set_brightness 0 w)

  -- The functions that a trigger is registered with.
  unfoldable pub activate : Trigger → LedClass × World → Ret × LedClass × World
  activate breath s = breath_trig_activate s
  activate timer2 s = timer2_trig_activate s
  activate normal s = normal_trig_activate s

  unfoldable pub deactivate : Trigger → LedClass × World → LedClass × World
  deactivate breath s = breath_trig_deactivate s
  deactivate timer2 s = timer2_trig_deactivate s
  deactivate normal s = normal_trig_deactivate s
