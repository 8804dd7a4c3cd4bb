-- ===== src/Tests/Triggers.antt =====
-- A trigger over the LED driver.
use ugreen_frontpanel.Base.{
  ℕ, ◌≡◌, ◌⊎◌, refl, true, false, List, [], ◌∷◌, some, codes, ok, err, enomem,
}
use ugreen_frontpanel.Leds.Device.{LedStatus, Blink, BlinkResult, done, fault, leds_blink_set}
use ugreen_frontpanel.Leds.Trigger.{LedCore, LedClass, timer2, activate, deactivate}
use ugreen_frontpanel.Leds.Trigger.Laws.{CallsDriver, activate-deactivate}
use ugreen_frontpanel.Tests.Leds.{Line, line, with_faults, two_leds}

-- The LED core of the kernel over the driver, for the second LED with trigger `breath`.
record Core : Type 0 where
  leds : List LedStatus
  wire : Line

abbrev as_blink : ℕ → ℕ → Core → Blink
as_blink on off c = record { leds = c.leds; delay_on = on; delay_off = off; brightness = 0 }

abbrev after : ℕ → ℕ → Core → BlinkResult × Line → ℕ × ℕ × Core
after on off c (done r b, w) = (b.delay_on, b.delay_off, record { leds = b.leds; wire = w })
after on off c (fault, w) = (on, off, c)

abbrev core : LedCore
core = record {
  World = Core;
  led_blink_set = λ on off c.
      after on off c (leds_blink_set line (some (codes "breath")) 1 (as_blink on off c) c.wire);
  led_set_brightness = λ n c. c;
  flush_work = λ c. c;
  msleep = λ n c. c;
  led_get_default_pattern = λ c. (some (300 ∷ 700 ∷ []), c);
  kzalloc = λ c. (true, c);
}

abbrev core-CallsDriver : CallsDriver core line (codes "breath") 1
core-CallsDriver = record {
  leds = λ c. c.leds;
  wire = λ c. c.wire;
  brightness = λ c. 0;
  blink_calls = λ on off c b' v e. rw e (refl, refl, refl, refl);
}

abbrev fresh : LedClass
fresh = record { blink_delay_on = 0; blink_delay_off = 0; init_default = true; allocated = 0 }

abbrev quiet : Core
quiet = record { leds = two_leds; wire = with_faults 0 0 }

activate-deactivate_example :
    let (r, led1, w1) = activate core timer2 (fresh, quiet) in
    let (led2, w2) = deactivate core timer2 (led1, w1) in
    ((r ≡ ok tt) × (led2.allocated ≡ 0) × (led2.init_default ≡ false))
    ⊎ ((r ≡ err enomem) × (led1 ≡ fresh))
activate-deactivate_example = activate-deactivate core timer2 fresh quiet
