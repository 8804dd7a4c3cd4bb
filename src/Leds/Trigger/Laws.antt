-- ===== src/Leds/Trigger/Laws.antt =====
-- Triggers over the driver's own blink operation.
use ugreen_frontpanel.Base.{ℕ, ◌≡◌, ◌⊎◌, false, List, some, arith, ok, err, enomem}
use ugreen_frontpanel.Leds.Bus.{Smbus}
use ugreen_frontpanel.Leds.Device.{LedStatus, Blink, done, leds_blink_set}
use ugreen_frontpanel.Leds.Trigger.{
  LedCore, LedClass, Trigger, breath, timer2, normal, activate, breath_trig_activate,
  breath_trig_deactivate, timer2_trig_activate, timer2_trig_deactivate, normal_trig_activate,
  normal_trig_deactivate, deactivate, init_once, pattern_init,
}

-- An activation either succeeds, and then the default pattern is not used again and a deactivation
-- leaves as many blocks allocated as there were before; or it fails with -ENOMEM and has changed
-- nothing of the device.
pub activate-deactivate :
    (core : LedCore) (trigger : Trigger) (led : LedClass) (w : core.World)
    → let (r, led1, w1) = activate core trigger (led, w) in
      let (led2, w2) = deactivate core trigger (led1, w1) in
      ((r ≡ ok tt) × (led2.allocated ≡ led.allocated) × (led2.init_default ≡ false))
      ⊎ ((r ≡ err enomem) × (led1 ≡ led))
unfolding activate deactivate breath_trig_activate breath_trig_deactivate timer2_trig_activate
    timer2_trig_deactivate normal_trig_activate normal_trig_deactivate init_once pattern_init
activate-deactivate core breath led w = ground arith
activate-deactivate core timer2 led w = ground arith
activate-deactivate core normal led w = ground arith

-- The LED core over the driver, for one device and one trigger: where the driver's blink operation
-- returns 0, `led_blink_set` does just what that does.
pub record CallsDriver (core : LedCore) (bus : Smbus) (trigger : List ℕ) (cdev : ℕ) : Type 0 where
  pub leds : core.World → List LedStatus
  pub wire : core.World → bus.World
  pub brightness : core.World → ℕ
  pub blink_calls :
      (on off : ℕ) (w : core.World) (b' : Blink) (v : bus.World)
      → leds_blink_set bus
          (some trigger)
          cdev
          (record { leds = leds w; delay_on = on; delay_off = off; brightness = brightness w })
          (wire w)
        ≡ (done (ok tt) b', v)
      → let (on', off', w') = core.led_blink_set on off w in
        (on' ≡ b'.delay_on) × (off' ≡ b'.delay_off) × (leds w' ≡ b'.leds) × (wire w' ≡ v)
