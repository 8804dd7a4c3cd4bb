-- ===== src/Leds/Device.antt =====
-- The LED class operations of packages/ugreen-leds-mcu/leds-mcu.c: leds_brightness_set,
-- brightness_work, leds_blink_set and color_set. An LED class device is its position in the array
-- `ug_dev->cdev`; a position past its end is a device that is none of the driver's.
pub mod Coalesce
pub mod Laws
use ugreen_frontpanel.Base.{
  ℕ, ◌+◌, ◌-◌, ◌*◌, ◌/◌, ◌%◌, ◌^◌, ◌<◌, Bool, true, false, ◌||◌, List, [], ◌∷◌, Option, none, some,
  ltb, leb, ◌==◌, if◌then◌else◌, bit_or, codes, strcmp_eq, get_elem?, get_or, set, Io, Result, ok,
  err, Ret, einval, ebusy,
}
use ugreen_frontpanel.Leds.Bus.{Smbus}
use ugreen_frontpanel.Leds.Wire.{i2c_idx601x_write_led}

abbrev pub led_mode_light : ℕ
led_mode_light = 0x01

abbrev pub led_mode_color : ℕ
led_mode_color = 0x02

abbrev pub led_mode_switch : ℕ
led_mode_switch = 0x03

abbrev pub led_mode_blink : ℕ
led_mode_blink = 0x04

abbrev pub led_mode_breath : ℕ
led_mode_breath = 0x05

-- The fields of `struct led_status` that the driver uses; `work` holds while brightness_work is
-- scheduled.
pub record LedStatus : Type 0 where
  pub led_addr : ℕ
  pub mode : ℕ
  pub status_data : ℕ
  pub light : ℕ
  pub red : ℕ
  pub green : ℕ
  pub blue : ℕ
  pub work : Bool

abbrev pub u32 : ℕ → ℕ
u32 n = n % 2 ^ 32

-- `unsigned long`
abbrev pub u64 : ℕ → ℕ
u64 n = n % 2 ^ 64

-- leds_brightness_set: `light` has 16 bits.
unfoldable pub leds_brightness_set : ℕ → ℕ → List LedStatus → List LedStatus
leds_brightness_set cdev brightness leds = elim (get_elem? leds cdev) [
  | none ↦ leds
  | some s ↦
      set leds cdev
        (record s { light = if brightness == 1 then 255 else brightness % 65536; work = true })
]

-- `status_data = (*delay_on + *delay_off) << 16; status_data |= low;`
unfoldable pub pack_delays : ℕ → ℕ → ℕ → ℕ
pack_delays delay_on delay_off low =
    u32 (bit_or (u32 (u64 (u64 (delay_on + delay_off) * 65536))) low)

-- `tmp_data`, the high byte first.
abbrev pub split_word : ℕ → List ℕ
split_word x = x / 2 ^ 24 % 256 ∷ x / 2 ^ 16 % 256 ∷ x / 2 ^ 8 % 256 ∷ x % 256 ∷ []

-- What leds_blink_set reads and writes through its arguments, beside the LEDs.
pub record Blink : Type 0 where
  pub leds : List LedStatus
  pub delay_on : ℕ
  pub delay_off : ℕ
  pub brightness : ℕ

-- The branch for `breath`: the delays are raised to their least values.
unfoldable pub plan_breath : LedStatus → Blink → LedStatus × Blink
unfolding pack_delays
plan_breath s b =
    let delay_off = if ltb b.delay_off 500 then 500 else b.delay_off in
    let delay_on = if ltb b.delay_on 1000 then 1000 else b.delay_on in
    (
      record s { mode = led_mode_breath; status_data = pack_delays delay_on delay_off delay_on },
      record b { delay_on = delay_on; delay_off = delay_off; brightness = s.light },
    )

-- The branch for `timer2`.
unfoldable pub plan_timer2 : LedStatus → Blink → LedStatus × Blink
unfolding pack_delays
plan_timer2 s b = (
  record s {
    mode = led_mode_blink;
    status_data =
        if b.delay_on == 0 || b.delay_off == 0
        then 0
        else pack_delays b.delay_on b.delay_off b.delay_off;
  },
  b,
)

-- The status and the delays that the trigger's branch leaves, before anything is written.
unfoldable pub plan : List ℕ → LedStatus → Blink → LedStatus × Blink
unfolding plan_breath plan_timer2
plan trigger s b =
    if strcmp_eq trigger (codes "normal")
    then (
      record s { mode = led_mode_light; status_data = 0 },
      record b { delay_off = 0; delay_on = 0 },
    )
    else if strcmp_eq trigger (codes "breath")
    then plan_breath s b
    else if strcmp_eq trigger (codes "timer2")
    then plan_timer2 s b
    else (s, b)

-- The result, or a write past the array of statuses, to which C gives no meaning.
pub data BlinkResult : Type 0 where
  done : Ret → Blink → BlinkResult
  fault : BlinkResult

abbrev pub to_ret : Result ℕ → Ret
to_ret (ok n) = ok tt
to_ret (err e) = err ebusy

abbrev pub led_color_table : List (List ℕ)
led_color_table =
    (255 ∷ 255 ∷ 255 ∷ [])
    ∷ (220 ∷ 40 ∷ 0 ∷ [])
    ∷ (255 ∷ 0 ∷ 0 ∷ [])
    ∷ (0 ∷ 255 ∷ 0 ∷ [])
    ∷ (0 ∷ 0 ∷ 255 ∷ [])
    ∷ []

module _ (bus : Smbus) where
  open bus use {World}

  -- brightness_work of the LED at a position of the array: both of its branches write the same.
  unfoldable pub brightness_work : ℕ → LedStatus → World → LedStatus × World
  brightness_work cdev s w =
      let light = if s.light == 1 then 255 else s.light in
      let (r, w') =
        i2c_idx601x_write_led bus s.led_addr led_mode_light (light % 256 ∷ 0 ∷ 0 ∷ 0 ∷ []) w in
      (record s { light = light; work = false }, w')

  -- The writes of leds_blink_set: for `normal` a switch first, then the mode and the four bytes.
  unfoldable pub send_plan : Bool → LedStatus → Io World Ret
  send_plan normal s w =
      let (r, w') =
        i2c_idx601x_write_led bus s.led_addr led_mode_switch (0xff ∷ 0 ∷ 0 ∷ 0 ∷ []) w in
      let (r', w'') =
        i2c_idx601x_write_led bus s.led_addr s.mode (split_word s.status_data)
          (if normal then w' else w) in
      if normal
      then elim r [ ok n ↦ (to_ret r', w'') | err e ↦ (err ebusy, w') ]
      else (to_ret r', w'')

  -- `trigger` is `cdev->trigger->name`, and `none` where the trigger or its name is NULL. The
  -- position is not compared with the number of LEDs.
  unfoldable pub leds_blink_set : Option (List ℕ) → ℕ → Blink → World → BlinkResult × World
  leds_blink_set none cdev b w = (done (err einval) b, w)
  leds_blink_set (some trigger) cdev b w = elim (get_elem? b.leds cdev) [
    | none ↦ (fault, w)
    | some s ↦
        let (s', b') = plan trigger s b in
        let (r, w') = send_plan (strcmp_eq trigger (codes "normal")) s' w in
        (done r (record b' { leds = set b.leds cdev s' }), w')
  ]

  -- color_set: `size` comes back whatever happens, and `ret - 1` wraps below zero.
  unfoldable pub color_set :
      (List ℕ → Option ℕ) → ℕ → List ℕ → ℕ → List LedStatus → World → ℕ × List LedStatus × World
  color_set kstrtoul cdev buf size leds w = elim (get_elem? leds cdev) [
    | none ↦ (size, leds, w)
    | some s ↦ elim (kstrtoul buf) [
      | none ↦ (size, leds, w)
      | some n ↦
          let row = u64 (n + 2 ^ 64 - 1) in
          let rgb = get_or led_color_table row [] in
          let s' = record s {
            red = get_or rgb 0 0;
            green = get_or rgb 1 0;
            blue = get_or rgb 2 0;
          } in
          let (r, w') =
            i2c_idx601x_write_led bus s.led_addr led_mode_color
              (get_or rgb 0 0 ∷ get_or rgb 1 0 ∷ get_or rgb 2 0 ∷ 0 ∷ []) w in
          if ltb 4 row then (size, leds, w) else (size, set leds cdev s', w')
    ]
  ]
